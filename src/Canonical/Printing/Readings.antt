-- ===== src/Canonical/Printing/Readings.antt =====
-- The text of a value can be read back: no two values have one text.
use Prim.Native.Char.{Char, code}
use Prim.Native.Nat.{◌/◌}
use text.Mathlib.TextEquality.{Char-path}
use native.Mathlib.Decide.{dec_lt}
use coltrane.Base.{
  ℕ, zero, suc, ◌+◌, ◌-◌, ◌*◌, ◌%◌, ◌≤◌, ◌<◌, String, ◌≡◌, refl, sym, ap, ◌∙◌, Bool, true, not,
  ◌&&◌, Option, none, some, some-eq_some, none-some, eqb, leb, arith, if◌then◌else◌,
}
use coltrane.Canonical.Printing.{◌∹◌, digit, decimal, escaped, escape_all}

-- The value of a digit
abbrev worth : Char → ℕ
worth c = if leb (code c) 57 then code c - 48 else code c - 87

-- A test of every number below a bound
every_below : ℕ → (ℕ → Bool) → Bool
every_below zero p = true
every_below (suc n) p = p n && every_below n p

every_below_sound : (n : ℕ) (p : ℕ → Bool) (x : ℕ) → every_below n p ≡ true → x < n → p x ≡ true
unfolding every_below
every_below_sound zero p x h lt = absurd (omega arith)
every_below_sound (suc n) p x h lt = ground (arith, every_below_sound n p x)

digits_table : every_below 16 (λ n. eqb (worth (digit n)) n) ≡ true
unfolding every_below digit
digits_table = refl

worth-digit : (n : ℕ) → n < 16 → worth (digit n) ≡ n
worth-digit n h =
    ground (arith, every_below_sound 16 (λ (m : ℕ). eqb (worth (digit m)) m) n digits_table h)

abbrev pub is_digit : Char → Bool
is_digit c = leb 48 (code c) && leb (code c) 57

decimals_table : every_below 10 (λ n. is_digit (digit n)) ≡ true
unfolding every_below digit
decimals_table = refl

pub is_digit-digit : (n : ℕ) → n < 10 → is_digit (digit n) ≡ true
is_digit-digit n h = every_below_sound 10 (λ m. is_digit (digit m)) n decimals_table h

-- The number that a text begins with, and what follows it
read_digits : ℕ → String → ℕ × String
read_digits n String.[] = (n, String.[])
read_digits n (String.◌∷◌ c s) =
    let more = read_digits (n * 10 + worth c) s in if is_digit c then more else (n, c ∹ s)

read_digits-digit :
    (m n : ℕ) (s : String) → n < 10 → read_digits m (digit n ∹ s) ≡ read_digits (m * 10 + n) s
unfolding read_digits
read_digits-digit m n s h = rw (is_digit-digit n h, worth-digit n (omega arith))

pub decimal-short : (f n : ℕ) (rest : String) → n < 10 → decimal (suc f) n rest ≡ digit n ∹ rest
unfolding decimal
decimal-short f n rest h = ground arith

pub decimal-long :
    (f n : ℕ) (rest : String)
    → 10 ≤ n
    → decimal (suc f) n rest ≡ decimal f (n / 10) (digit (n % 10) ∹ rest)
unfolding decimal
decimal-long f n rest h = ground arith

read_digits-decimal :
    (f n : ℕ) (rest : String) → n ≤ f → read_digits 0 (decimal f n rest) ≡ read_digits n rest
unfolding decimal
read_digits-decimal zero n rest h =
    read_digits-digit 0 n rest (omega arith) ∙ ap (λ m. read_digits m rest) (omega arith)
read_digits-decimal (suc f) n rest h = elim (dec_lt n 10) [
  | yes small ↦
      ap (read_digits 0) (decimal-short f n rest small)
      ∙ (read_digits-digit 0 n rest small ∙ ap (λ m. read_digits m rest) (omega arith))
  | no large ↦
      ap (read_digits 0) (decimal-long f n rest (omega arith))
      ∙ (read_digits-decimal f (n / 10) (digit (n % 10) ∹ rest) (omega arith)
          ∙ (read_digits-digit (n / 10) (n % 10) rest (omega arith)
              ∙ ap (λ m. read_digits m rest) (omega arith)))
]

-- The character that an escaped text begins with, and what follows it
read_hex : String → Option (ℕ × String)
read_hex (String.◌∷◌ _ (String.◌∷◌ _ (String.◌∷◌ c (String.◌∷◌ d s)))) =
    some (worth c * 16 + worth d, s)
read_hex _ = none

read_escape : String → Option (ℕ × String)
unfolding read_hex
read_escape String.[] = none
read_escape (String.◌∷◌ c s) =
    if eqb (code c) 117
    then read_hex s
    else if eqb (code c) 98
    then some (8, s)
    else if eqb (code c) 116
    then some (9, s)
    else if eqb (code c) 110
    then some (10, s)
    else if eqb (code c) 102
    then some (12, s)
    else if eqb (code c) 114
    then some (13, s)
    else some (code c, s)

read_char : String → Option (ℕ × String)
unfolding read_escape
read_char String.[] = none
read_char (String.◌∷◌ c s) =
    if eqb (code c) 34 then none else if eqb (code c) 92 then read_escape s else some (code c, s)

read_char-escaped : (c : Char) (rest : String) → read_char (escaped c rest) ≡ some (code c, rest)
unfolding read_char escaped
read_char-escaped c rest = elim (dec_lt (code c) 32) [
  | yes control ↦
      ground
        (arith, worth-digit (code c / 16) (omega arith), worth-digit (code c % 16) (omega arith))
  | no plain ↦ ground arith
]

-- A text that begins with no digit
unfoldable pub no_digit : String → Bool
no_digit String.[] = true
no_digit (String.◌∷◌ c s) = not (is_digit c)

read_digits-stop : (n : ℕ) (rest : String) → no_digit rest ≡ true → read_digits n rest ≡ (n, rest)
unfolding read_digits no_digit
read_digits-stop n String.[] h = refl
read_digits-stop n (String.◌∷◌ c s) h = ground (arith, h)

pub tail_path : {c : Char} {r s : String} → c ∹ r ≡ c ∹ s → r ≡ s
tail_path h = cc

pub decimal_inj :
    (m n : ℕ) (r s : String)
    → no_digit r ≡ true
    → no_digit s ≡ true
    → decimal m m r ≡ decimal n n s
    → (m ≡ n) × (r ≡ s)
decimal_inj m n r s hr hs h =
    let same : (m, r) ≡ (n, s) =
      sym (read_digits-decimal m m r (omega arith) ∙ read_digits-stop m r hr)
      ∙ (ap (read_digits 0) h
          ∙ (read_digits-decimal n n s (omega arith) ∙ read_digits-stop n s hs)) in
    (ap (λ p. p.0) same, ap (λ p. p.1) same)

escaped_inj : (c d : Char) (r s : String) → escaped c r ≡ escaped d s → (c ≡ d) × (r ≡ s)
escaped_inj c d r s h =
    let same : (code c, r) ≡ (code d, s) =
      some-eq_some (sym (read_char-escaped c r) ∙ (ap read_char h ∙ read_char-escaped d s)) in
    (Char-path c d (ap (λ p. p.0) same), ap (λ p. p.1) same)

-- The end of a text is no escaped character.
end_is_no_escape : {B : Type 0} (c : Char) (r s : String) → "\"" ∹ r ≡ escaped c s → B
unfolding read_char
end_is_no_escape c r s h = none-some (ap read_char h ∙ read_char-escaped c s)

pub escape_all_inj : (a b r s : String) → escape_all a r ≡ escape_all b s → (a ≡ b) × (r ≡ s)
unfolding escape_all
escape_all_inj String.[] String.[] r s h = (refl, tail_path h)
escape_all_inj String.[] (String.◌∷◌ d b) r s h = end_is_no_escape d r _ h
escape_all_inj (String.◌∷◌ c a) String.[] r s h = end_is_no_escape c s _ (sym h)
escape_all_inj (String.◌∷◌ c a) (String.◌∷◌ d b) r s h =
    let (same, rest) = escaped_inj c d (escape_all a r) (escape_all b s) h in
    let (more, left) = escape_all_inj a b r s rest in (λ i. String.◌∷◌ (same i) (more i), left)
