-- ===== src/Canonical/Printing/Characters.antt =====
-- What the text of a value keeps of what follows it: no character of it breaks a line.
use Prim.Native.Char.{Char, code}
use Prim.Native.Nat.{◌/◌}
use native.Mathlib.Decide.{dec_lt}
use coltrane.Canonical.Printing.Readings.{decimal-short, decimal-long}
use coltrane.Base.{
  ℕ, zero, suc, ◌%◌, String, ◌≡◌, refl, sym, subst, Bool, true, false, eqb, ltb, arith,
  if◌then◌else◌,
}
use coltrane.Base.Json.{Json, Items, Fields, null, bool, num, str, arr, obj, nil, cons, end, field}
use coltrane.Canonical.Printing.{
  ◌∹◌, digit, decimal, escaped, escape_all, quoted, print, print_items, more_items, print_fields,
  more_fields,
}

choice {ℓ} :
    {A : Type ℓ} (Q : A → Type 0) (b : Bool) {s t : A}
    → Q s
    → (b ≡ false → Q t)
    → Q (if b then s else t)
choice Q true p q = p
choice Q false p q = q refl

abbrev IsNoBreak : Char → Type 0
IsNoBreak c = eqb (code c) 10 ≡ false

digit-IsNoBreak : (n : ℕ) → IsNoBreak (digit n)
unfolding digit
digit-IsNoBreak n = choice IsNoBreak (eqb n 0) refl (λ _. choice IsNoBreak (eqb n 1) refl (λ _.
    choice IsNoBreak (eqb n 2) refl (λ _. choice IsNoBreak (eqb n 3) refl (λ _.
      choice IsNoBreak (eqb n 4) refl (λ _. choice IsNoBreak (eqb n 5) refl (λ _.
        choice IsNoBreak (eqb n 6) refl (λ _. choice IsNoBreak (eqb n 7) refl (λ _.
          choice IsNoBreak (eqb n 8) refl (λ _. choice IsNoBreak (eqb n 9) refl (λ _.
            choice IsNoBreak (eqb n 10) refl (λ _. choice IsNoBreak (eqb n 11) refl (λ _.
              choice IsNoBreak (eqb n 12) refl (λ _.
                choice IsNoBreak (eqb n 13) refl
                  (λ _. choice IsNoBreak (eqb n 14) refl (λ _. refl)))))))))))))))

module _ (P : String → Type 0) (add : (c : Char) (s : String) → IsNoBreak c → P s → P (c ∹ s)) where
  decimal-keeps : (f n : ℕ) (rest : String) → P rest → P (decimal f n rest)
  unfolding decimal
  decimal-keeps zero n rest h = add (digit n) rest (digit-IsNoBreak n) h
  decimal-keeps (suc f) n rest h = elim (dec_lt n 10) [
    | yes small ↦
        subst P (sym (decimal-short f n rest small)) (add (digit n) rest (digit-IsNoBreak n) h)
    | no large ↦ subst P (sym (decimal-long f n rest (omega arith))) (
        decimal-keeps f (n / 10) (digit (n % 10) ∹ rest)
          (add (digit (n % 10)) rest (digit-IsNoBreak (n % 10)) h))
  ]

  -- A backslash and one character
  pair_keeps : (c : Char) (rest : String) → IsNoBreak c → P rest → P ("\\" ∹ c ∹ rest)
  pair_keeps c rest ne h = add "\\" (c ∹ rest) refl (add c rest ne h)

  hex_keeps :
      (c : Char) (rest : String)
      → P rest
      → P ("0" ∹ "0" ∹ digit (code c / 16) ∹ digit (code c % 16) ∹ rest)
  hex_keeps c rest h = add "0" _ refl (
      add "0" _ refl
        (add _ _ (digit-IsNoBreak (code c / 16)) (add _ _ (digit-IsNoBreak (code c % 16)) h)))

  escaped-keeps : (c : Char) (rest : String) → P rest → P (escaped c rest)
  unfolding escaped
  escaped-keeps c rest h = choice P (eqb (code c) 34) (pair_keeps "\"" rest refl h) (λ _.
      choice P (eqb (code c) 92) (pair_keeps "\\" rest refl h) (λ _.
        choice P (eqb (code c) 8) (pair_keeps "b" rest refl h) (λ _.
          choice P (eqb (code c) 9) (pair_keeps "t" rest refl h) (λ _.
            choice P (eqb (code c) 10) (pair_keeps "n" rest refl h) (λ ne.
              choice P (eqb (code c) 12) (pair_keeps "f" rest refl h) (λ _.
                choice P (eqb (code c) 13) (pair_keeps "r" rest refl h) (λ _.
                  choice P (ltb (code c) 32) (add "\\" _ refl (add "u" _ refl (hex_keeps c rest h)))
                    (λ _. add c rest ne h))))))))

  escape_all-keeps : (s rest : String) → P rest → P (escape_all s rest)
  unfolding escape_all
  escape_all-keeps String.[] rest h = add "\"" rest refl h
  escape_all-keeps (String.◌∷◌ c s) rest h =
      escaped-keeps c (escape_all s rest) (escape_all-keeps s rest h)

  quoted-keeps : (s rest : String) → P rest → P (quoted s rest)
  unfolding quoted
  quoted-keeps s rest h = add "\"" (escape_all s rest) refl (escape_all-keeps s rest h)

  mutual
    unfolding print print_items more_items print_fields more_fields

    pub print-keeps : (v : Json) (rest : String) → P rest → P (print v rest)
    print-keeps null rest h = add "n" _ refl (add "u" _ refl (add "l" _ refl (add "l" _ refl h)))
    print-keeps (bool true) rest h =
        add "t" _ refl (add "r" _ refl (add "u" _ refl (add "e" _ refl h)))
    print-keeps (bool false) rest h =
        add "f" _ refl (add "a" _ refl (add "l" _ refl (add "s" _ refl (add "e" _ refl h))))
    print-keeps (num n) rest h = decimal-keeps n n rest h
    print-keeps (str s) rest h = quoted-keeps s rest h
    print-keeps (arr xs) rest h = add "[" _ refl (print_items-keeps xs rest (add "]" rest refl h))
    print-keeps (obj fs) rest h = add "{" _ refl (print_fields-keeps fs rest (add "}" rest refl h))

    print_items-keeps : (xs : Items) (rest : String) → P ("]" ∹ rest) → P (print_items xs rest)
    print_items-keeps nil rest h = h
    print_items-keeps (cons v xs) rest h =
        print-keeps v (more_items xs rest) (more_items-keeps xs rest h)

    more_items-keeps : (xs : Items) (rest : String) → P ("]" ∹ rest) → P (more_items xs rest)
    more_items-keeps nil rest h = h
    more_items-keeps (cons v xs) rest h =
        add "," _ refl (print-keeps v (more_items xs rest) (more_items-keeps xs rest h))

    pub print_fields-keeps :
        (fs : Fields) (rest : String) → P ("}" ∹ rest) → P (print_fields fs rest)
    print_fields-keeps end rest h = h
    print_fields-keeps (field k v fs) rest h =
        quoted-keeps k _
          (add ":" _ refl (print-keeps v (more_fields fs rest) (more_fields-keeps fs rest h)))

    more_fields-keeps : (fs : Fields) (rest : String) → P ("}" ∹ rest) → P (more_fields fs rest)
    more_fields-keeps end rest h = h
    more_fields-keeps (field k v fs) rest h = add "," _ refl (
        quoted-keeps k _
          (add ":" _ refl (print-keeps v (more_fields fs rest) (more_fields-keeps fs rest h))))
