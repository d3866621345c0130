-- ===== src/Canonical/Printing/Lines.antt =====
-- An object as one line of a text: it is printed without a line break, and there is nothing to trim.
use Prim.Native.Char.{Char, code}
use coltrane.Base.{
  is_line, is_line-add, String, Bool, true, false, ◌&&◌, ◌≡◌, refl, sym, ap, ◌∙◌, inl, inr, ◌==◌,
  eq_iff, trim, is_blank, is_trimmed, trim_start, trim_end, if◌then◌else◌, Bool-cases, true-false,
}
use coltrane.Base.Json.{Fields, obj}
use coltrane.Canonical.Printing.{◌∹◌, stringify, print, print_fields}
use coltrane.Canonical.Printing.Characters.{print_fields-keeps}

-- A text that `trim` takes nothing from, at its end
abbrev IsClosed : String → Type 0
IsClosed s = (trim_end s ≡ s) × (is_blank s ≡ false)

and_false : (b : Bool) → (b && false) ≡ false
and_false true = refl
and_false false = refl

is_blank-add : (c : Char) (s : String) → is_blank s ≡ false → is_blank (c ∹ s) ≡ false
unfolding is_blank
is_blank-add c s solid = ap (λ b. is_trimmed (code c) && b) solid ∙ and_false (is_trimmed (code c))

IsClosed-add : (c : Char) (s : String) → IsClosed s → IsClosed (c ∹ s)
unfolding trim_end
IsClosed-add c s (ended, solid) = (
  ap (λ b. if b then "" else c ∹ trim_end s) (is_blank-add c s solid) ∙ ap (String.◌∷◌ c) ended,
  is_blank-add c s solid,
)

pub stringify-is_line : (e : Fields) → is_line (stringify (obj e)) ≡ true
unfolding stringify print is_line
stringify-is_line e = print_fields-keeps (λ s. is_line s ≡ true) is_line-add e "" refl

pub stringify-trim : (e : Fields) → trim (stringify (obj e)) ≡ stringify (obj e)
unfolding stringify print is_blank trim_end trim_start trim
stringify-trim e =
    (IsClosed-add "{" (print_fields e "")
      (print_fields-keeps IsClosed (λ c s _. IsClosed-add c s) e "" (refl, refl))).0

pub stringify-solid : (e : Fields) → (stringify (obj e) == "") ≡ false
unfolding stringify print is_blank
stringify-solid e = elim (Bool-cases (stringify (obj e) == "")) [
  | inl empty ↦ true-false (sym (ap is_blank ((eq_iff (stringify (obj e)) "").0 empty)))
  | inr solid ↦ solid
]
