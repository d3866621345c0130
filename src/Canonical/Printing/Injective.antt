-- ===== src/Canonical/Printing/Injective.antt =====
-- No two values have one text, whatever follows it.
use Prim.Native.Char.{code}
use Prim.Native.Nat.{◌/◌}
use native.Mathlib.Decide.{dec_lt}
use coltrane.Base.{
  ℕ, zero, suc, ◌%◌, ◌≤◌, ◌<◌, ◌≢◌, String, ◌≡◌, refl, sym, ap, ◌∙◌, true, false, eqb, arith,
  if◌then◌else◌,
}
use coltrane.Base.Json.{Json, Items, Fields, null, bool, num, str, arr, obj, nil, cons, end, field}
use coltrane.Canonical.Printing.{
  ◌∹◌, digit, decimal, quoted, print, print_items, more_items, print_fields, more_fields, stringify,
}
use coltrane.Canonical.Printing.Readings.{
  is_digit, is_digit-digit, decimal-short, decimal-long, decimal_inj, escape_all_inj, tail_path,
  no_digit,
}

-- What the first character of a text announces
kind : String → ℕ
kind String.[] = 10
kind (String.◌∷◌ c s) =
    if is_digit c
    then 3
    else if eqb (code c) 110
    then 0
    else if eqb (code c) 116
    then 1
    else if eqb (code c) 102
    then 2
    else if eqb (code c) 34
    then 4
    else if eqb (code c) 91
    then 5
    else if eqb (code c) 123
    then 6
    else if eqb (code c) 93
    then 7
    else if eqb (code c) 44
    then 8
    else if eqb (code c) 125
    then 9
    else 10

abbrev tag : Json → ℕ
tag null = 0
tag (bool true) = 1
tag (bool false) = 2
tag (num n) = 3
tag (str s) = 4
tag (arr xs) = 5
tag (obj fs) = 6

kind-digit : (n : ℕ) (rest : String) → n < 10 → kind (digit n ∹ rest) ≡ 3
unfolding kind
kind-digit n rest h = rw (is_digit-digit n h)

kind-decimal : (f n : ℕ) (rest : String) → n ≤ f → kind (decimal f n rest) ≡ 3
unfolding decimal
kind-decimal zero n rest h = kind-digit n rest (omega arith)
kind-decimal (suc f) n rest h = elim (dec_lt n 10) [
  | yes small ↦ ap kind (decimal-short f n rest small) ∙ kind-digit n rest small
  | no large ↦
      ap kind (decimal-long f n rest (omega arith))
      ∙ kind-decimal f (n / 10) (digit (n % 10) ∹ rest) (omega arith)
]

kind-print : (v : Json) (rest : String) → kind (print v rest) ≡ tag v
unfolding kind print quoted
kind-print null rest = refl
kind-print (bool true) rest = refl
kind-print (bool false) rest = refl
kind-print (num n) rest = kind-decimal n n rest (omega arith)
kind-print (str s) rest = refl
kind-print (arr xs) rest = refl
kind-print (obj fs) rest = refl

apart : {B : Type 0} (v w : Json) (r s : String) → tag v ≢ tag w → print v r ≡ print w s → B
apart v w r s ne h = absurd (ne (sym (kind-print v r) ∙ (ap kind h ∙ kind-print w s)))

-- Texts that announce different things differ.
clash : {B : Type 0} (s t : String) → kind s ≢ kind t → s ≡ t → B
clash s t ne h = absurd (ne (ap kind h))

tag-le : (v : Json) → tag v ≤ 6
tag-le v = ground arith

-- A value begins with no punctuation.
no_value : {B : Type 0} (v : Json) (r s : String) → 6 < kind s → s ≡ print v r → B
no_value v r s more h = absurd (omega (arith, ap kind h, kind-print v r, tag-le v))

quoted_inj : (a b r s : String) → quoted a r ≡ quoted b s → (a ≡ b) × (r ≡ s)
unfolding quoted
quoted_inj a b r s h = escape_all_inj a b r s (tail_path h)

no_digit-more_items : (xs : Items) (r : String) → no_digit (more_items xs r) ≡ true
unfolding no_digit more_items
no_digit-more_items nil r = refl
no_digit-more_items (cons v xs) r = refl

no_digit-more_fields : (fs : Fields) (r : String) → no_digit (more_fields fs r) ≡ true
unfolding no_digit more_fields
no_digit-more_fields end r = refl
no_digit-more_fields (field k v fs) r = refl

mutual
  unfolding print print_items more_items print_fields more_fields kind quoted

  print_inj :
      (v w : Json) (r s : String)
      → no_digit r ≡ true
      → no_digit s ≡ true
      → print v r ≡ print w s
      → (v ≡ w) × (r ≡ s)
  print_inj null null r s i j h = (refl, tail_path (tail_path (tail_path (tail_path h))))
  print_inj null w r s i j h = apart null w r s (ground arith) h
  print_inj (bool true) (bool true) r s i j h =
      (refl, tail_path (tail_path (tail_path (tail_path h))))
  print_inj (bool true) w r s i j h = apart (bool true) w r s (ground arith) h
  print_inj (bool false) (bool false) r s i j h =
      (refl, tail_path (tail_path (tail_path (tail_path (tail_path h)))))
  print_inj (bool false) w r s i j h = apart (bool false) w r s (ground arith) h
  print_inj (num m) (num n) r s i j h =
      let (same, rest) = decimal_inj m n r s i j h in (ap num same, rest)
  print_inj (num m) w r s i j h = apart (num m) w r s (ground arith) h
  print_inj (str a) (str b) r s i j h =
      let (same, rest) = quoted_inj a b r s h in (ap str same, rest)
  print_inj (str a) w r s i j h = apart (str a) w r s (ground arith) h
  print_inj (arr xs) (arr ys) r s i j h =
      let (same, rest) = print_items_inj xs ys r s (tail_path h) in (ap arr same, rest)
  print_inj (arr xs) w r s i j h = apart (arr xs) w r s (ground arith) h
  print_inj (obj fs) (obj gs) r s i j h =
      let (same, rest) = print_fields_inj fs gs r s (tail_path h) in (ap obj same, rest)
  print_inj (obj fs) w r s i j h = apart (obj fs) w r s (ground arith) h

  print_items_inj :
      (xs ys : Items) (r s : String) → print_items xs r ≡ print_items ys s → (xs ≡ ys) × (r ≡ s)
  print_items_inj nil nil r s h = (refl, tail_path h)
  print_items_inj nil (cons w ys) r s h = no_value w _ _ (omega arith) h
  print_items_inj (cons v xs) nil r s h = no_value v _ _ (omega arith) (sym h)
  print_items_inj (cons v xs) (cons w ys) r s h =
      let (same, rest) =
        print_inj v w (more_items xs r) (more_items ys s) (no_digit-more_items xs r)
          (no_digit-more_items ys s) h in
      let (more, left) = more_items_inj xs ys r s rest in (λ i. cons (same i) (more i), left)

  more_items_inj :
      (xs ys : Items) (r s : String) → more_items xs r ≡ more_items ys s → (xs ≡ ys) × (r ≡ s)
  more_items_inj nil nil r s h = (refl, tail_path h)
  more_items_inj nil (cons w ys) r s h = clash _ _ (omega arith) h
  more_items_inj (cons v xs) nil r s h = clash _ _ (omega arith) h
  more_items_inj (cons v xs) (cons w ys) r s h =
      let (same, rest) =
        print_inj v w (more_items xs r) (more_items ys s) (no_digit-more_items xs r)
          (no_digit-more_items ys s) (tail_path h) in
      let (more, left) = more_items_inj xs ys r s rest in (λ i. cons (same i) (more i), left)

  print_fields_inj :
      (fs gs : Fields) (r s : String) → print_fields fs r ≡ print_fields gs s → (fs ≡ gs) × (r ≡ s)
  print_fields_inj end end r s h = (refl, tail_path h)
  print_fields_inj end (field j w gs) r s h = clash _ _ (omega arith) h
  print_fields_inj (field k v fs) end r s h = clash _ _ (omega arith) h
  print_fields_inj (field k v fs) (field j w gs) r s h =
      let (key, after) = quoted_inj k j _ _ h in
      let (same, rest) =
        print_inj v w (more_fields fs r) (more_fields gs s) (no_digit-more_fields fs r)
          (no_digit-more_fields gs s) (tail_path after) in
      let (more, left) = more_fields_inj fs gs r s rest in
      (λ i. field (key i) (same i) (more i), left)

  more_fields_inj :
      (fs gs : Fields) (r s : String) → more_fields fs r ≡ more_fields gs s → (fs ≡ gs) × (r ≡ s)
  more_fields_inj end end r s h = (refl, tail_path h)
  more_fields_inj end (field j w gs) r s h = clash _ _ (omega arith) h
  more_fields_inj (field k v fs) end r s h = clash _ _ (omega arith) h
  more_fields_inj (field k v fs) (field j w gs) r s h =
      let (key, after) = quoted_inj k j _ _ (tail_path h) in
      let (same, rest) =
        print_inj v w (more_fields fs r) (more_fields gs s) (no_digit-more_fields fs r)
          (no_digit-more_fields gs s) (tail_path after) in
      let (more, left) = more_fields_inj fs gs r s rest in
      (λ i. field (key i) (same i) (more i), left)

-- The text of a value tells the value.
pub stringify_inj : (v w : Json) → stringify v ≡ stringify w → v ≡ w
unfolding stringify no_digit
stringify_inj v w h = (print_inj v w "" "" refl refl h).0
