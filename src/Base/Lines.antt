-- ===== src/Base/Lines.antt =====
-- The lines of a text.
use text.Mathlib.TextLemmas.{nil-append, cons-append}
use Prim.Native.Char.{Char, code}
use Prim.Native.String.{String}
use mathlib.Core.Path.{◌≡◌, refl, sym, ap, ◌∙◌}
use mathlib.Core.Logic.{◌≢◌, inl, inr}
use mathlib.Core.Bool.{Bool, true, false, not, ◌&&◌}
use mathlib.Core.List.{List, [], ◌∷◌, ◌++◌}
use coltrane.Base.Tests.{eqb, Bool-cases}
use coltrane.Base.Texts.{glue, before_lines, lines}
use coltrane.Base.Sets.{cons-nil, true-false}

before_lines-append :
    (c : String) (xs ys : List String)
    → xs ≢ []
    → before_lines c (xs ++ ys) ≡ before_lines c xs ++ ys
before_lines-append c [] ys h = absurd (h refl)
before_lines-append c (x ∷ xs) ys h = refl

before_lines-nonempty : (c : String) (ls : List String) → before_lines c ls ≢ []
before_lines-nonempty c [] h = cons-nil h
before_lines-nonempty c (l ∷ ls) h = cons-nil h

lines-nonempty : (s : String) → lines s ≢ []
unfolding lines
lines-nonempty String.[] h = cons-nil h
lines-nonempty (String.◌∷◌ c s) h = elim (Bool-cases (eqb (code c) 10)) [
  | inl e ↦ cons-nil (rw e at h)
  | inr e ↦ before_lines-nonempty (String.◌∷◌ c String.[]) (lines s) (rw e at h)
]

break_first : (t : String) → lines (glue "\n" t) ≡ "" ∷ lines t
unfolding lines
break_first t = ap lines (cons-append _ "" t) ∙ ap (λ s. "" ∷ lines s) (nil-append t)

-- A line break ends the lines before it.
pub lines-break : (s t : String) → lines (glue s (glue "\n" t)) ≡ lines s ++ lines t
unfolding lines
lines-break String.[] t = ap lines (nil-append (glue "\n" t)) ∙ break_first t
lines-break (String.◌∷◌ c s) t =
    ap lines (cons-append c s (glue "\n" t)) ∙ elim (Bool-cases (eqb (code c) 10)) [
      | inl e ↦ rw e (ap (λ ls. "" ∷ ls) (lines-break s t))
      | inr e ↦ rw e (
          ap (before_lines (String.◌∷◌ c String.[])) (lines-break s t)
          ∙ before_lines-append (String.◌∷◌ c String.[]) (lines s) (lines t) (lines-nonempty s))
    ]

-- A text with no line break in it
unfoldable pub is_line : String → Bool
is_line String.[] = true
is_line (String.◌∷◌ c s) = let rest = is_line s in not (eqb (code c) 10) && rest

pub is_line-add :
    (c : Char) (s : String)
    → eqb (code c) 10 ≡ false
    → is_line s ≡ true
    → is_line (String.◌∷◌ c s) ≡ true
unfolding is_line
is_line-add c s ne h = rw (ne, h) refl

pub lines-one : (s : String) → is_line s ≡ true → lines s ≡ s ∷ []
unfolding is_line lines
lines-one String.[] h = refl
lines-one (String.◌∷◌ c s) h = elim (Bool-cases (eqb (code c) 10)) [
  | inl e ↦ true-false (sym h ∙ rw e refl)
  | inr e ↦ rw e (
      ap (before_lines (String.◌∷◌ c String.[])) (lines-one s (rw e at h))
      ∙ ap (λ l. l ∷ []) (cons-append c "" s ∙ ap (String.◌∷◌ c) (nil-append s)))
]

pub is_line-glue : (s t : String) → is_line s ≡ true → is_line t ≡ true → is_line (glue s t) ≡ true
unfolding is_line
is_line-glue String.[] t h g = ap is_line (nil-append t) ∙ g
is_line-glue (String.◌∷◌ c s) t h g = elim (Bool-cases (eqb (code c) 10)) [
  | inl e ↦ true-false (sym h ∙ rw e refl)
  | inr e ↦
      ap is_line (cons-append c s t) ∙ is_line-add c (glue s t) e (is_line-glue s t (rw e at h) g)
]
