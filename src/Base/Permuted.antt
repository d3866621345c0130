-- ===== src/Base/Permuted.antt =====
-- Sorting forgets the order of a list, and nothing else.
use Prim.Native.String.{String}
use mathlib.Core.Path.{◌≡◌, refl, sym, ap, ◌∙◌}
use mathlib.Core.Logic.{inl, inr}
use mathlib.Core.HLevel.{hedberg}
use mathlib.Core.List.{List, [], ◌∷◌, foldr, Perm}
use mathlib.Core.List
use mathlib.Core.List.Perm
use native.Mathlib.Omega.{arith}
use text.Mathlib.Text.{◌==◌}
use text.Mathlib.TextEquality.{eq_iff, path_by_compare}
use coltrane.Base.Tests.{if◌then◌else◌, Bool-cases}
use coltrane.Base.Lists.{str_leb, insert_sorted, sorted}
use coltrane.Base.Sets.{true-false}
use coltrane.Base.Order.{str_leb_total, str_leb_trans, str_leb_antisym}

pub String-discrete : Discrete String
String-discrete s t = elim (Bool-cases (s == t)) [
  | inl e ↦ yes ((eq_iff s t).0 e)
  | inr e ↦ no (λ p. true-false (sym ((eq_iff s t).1 p) ∙ e))
]

heads_swap :
    (a b : String) (xs : List String)
    → (if str_leb a b then a ∷ b ∷ xs else b ∷ a ∷ xs)
      ≡ (if str_leb b a then b ∷ a ∷ xs else a ∷ b ∷ xs)
heads_swap a b xs = elim (Bool-cases (str_leb a b)) [
  | inl e ↦ elim (Bool-cases (str_leb b a)) [
    | inl f ↦
        let same : a ≡ b = path_by_compare a b (str_leb_antisym a b e f) in
        rw (e, f) (λ i. same i ∷ sym same i ∷ xs)
    | inr f ↦ rw (e, f)
  ]
  | inr e ↦ rw (e, str_leb_total a b e)
]

insert_sorted_comm :
    (a b : String) (xs : List String)
    → insert_sorted a (insert_sorted b xs) ≡ insert_sorted b (insert_sorted a xs)
unfolding insert_sorted
insert_sorted_comm a b [] = heads_swap a b []
insert_sorted_comm a b (y ∷ ys) = ground (
  arith,
  heads_swap a b (y ∷ ys),
  str_leb_trans a b y,
  str_leb_trans b a y,
  insert_sorted_comm a b ys,
)

sorted-foldr : (xs : List String) → sorted xs ≡ foldr insert_sorted [] xs
unfolding sorted
sorted-foldr [] = refl
sorted-foldr (x ∷ xs) = ap (insert_sorted x) (sorted-foldr xs)

pub sorted-perm : {xs ys : List String} → Perm xs ys → sorted xs ≡ sorted ys
sorted-perm {xs} {ys} p =
    sorted-foldr xs
    ∙ (Perm.foldr-eq (List.is_set (hedberg String-discrete)) insert_sorted insert_sorted_comm p []
        ∙ sym (sorted-foldr ys))
