-- ===== src/Base/Filters.antt =====
-- A filter after a list has grown, inside another filter, and beside the filter of what it leaves out.
use Prim.Native.Nat.{suc}
use mathlib.Core.Path.{◌≡◌, refl, ap, ◌∙◌, subst}
use mathlib.Core.Logic.{inl, inr}
use mathlib.Core.Bool.{Bool, true, false, not}
use mathlib.Core.List.{List, [], ◌∷◌, ◌++◌, Permᴰ}
use mathlib.Core.List.Permᴰ
use native.Mathlib.Omega.{arith}
use coltrane.Base.Tests.{if◌then◌else◌, Bool-cases}
use coltrane.Base.Lists.{keep, length}

module _ {ℓ} {A : Type ℓ} (p : A → Bool) where
  pub keep-last :
      (b : Bool) (xs : List A) (x : A)
      → p x ≡ b
      → keep p (xs ++ x ∷ []) ≡ (if b then keep p xs ++ x ∷ [] else keep p xs)
  unfolding keep
  keep-last true [] x e = rw e refl
  keep-last false [] x e = rw e refl
  keep-last b (y ∷ ys) x e = ground (arith, keep-last b ys x e)

  -- A filter is not narrowed by one that it implies.
  pub keep-keep :
      (m : A → Bool) (xs : List A)
      → ((x : A) → m x ≡ true → p x ≡ true)
      → keep m (keep p xs) ≡ keep m xs
  unfolding keep
  keep-keep m [] h = refl
  keep-keep m (x ∷ xs) h = elim (Bool-cases (m x)) [
    | inl e ↦ rw (h x e, e) (ap (λ zs. x ∷ zs) (keep-keep m xs h))
    | inr e ↦ elim (Bool-cases (p x)) [
      | inl d ↦ rw (d, e) (keep-keep m xs h)
      | inr d ↦ rw (d, e) (keep-keep m xs h)
    ]
  ]

  pub keep_comm : (m : A → Bool) (xs : List A) → keep m (keep p xs) ≡ keep p (keep m xs)
  unfolding keep
  keep_comm m [] = refl
  keep_comm m (x ∷ xs) = elim (Bool-cases (m x)) [
    | inl e ↦ elim (Bool-cases (p x)) [
      | inl d ↦ rw (d, e) (rw d (ap (λ zs. x ∷ zs) (keep_comm m xs)))
      | inr d ↦ rw (d, e) (rw d (keep_comm m xs))
    ]
    | inr e ↦ elim (Bool-cases (p x)) [
      | inl d ↦ rw (d, e) (keep_comm m xs)
      | inr d ↦ rw (d, e) (keep_comm m xs)
    ]
  ]

  -- What passes a filter, and what does not, are together the whole.
  pub keep-parts :
      (m : A → Bool) (xs : List A)
      → Permᴰ (keep m (keep p xs) ++ keep m (keep (λ x. not (p x)) xs)) (keep m xs)
  unfolding keep
  keep-parts m [] = Permᴰ.nil
  keep-parts m (x ∷ xs) = elim (Bool-cases (p x)) [
    | inl d ↦ elim (Bool-cases (m x)) [
      | inl e ↦ rw (d, e) (Permᴰ.cons refl (keep-parts m xs))
      | inr e ↦ rw (d, e) (keep-parts m xs)
    ]
    | inr d ↦ elim (Bool-cases (m x)) [
      | inl e ↦
          rw (d, e)
            (Permᴰ.trans (Permᴰ.middle x (keep m (keep p xs)) (keep m (keep (λ y. not (p y)) xs)))
              (Permᴰ.cons refl (keep-parts m xs)))
      | inr e ↦ rw (d, e) (keep-parts m xs)
    ]
  ]

pub same_perm {ℓ} : {A : Type ℓ} {xs ys : List A} → xs ≡ ys → Permᴰ xs ys
same_perm {xs = xs} h = subst (Permᴰ xs) h (Permᴰ.refl xs)

pub perm-length {ℓ} : {A : Type ℓ} {xs ys : List A} → Permᴰ xs ys → length xs ≡ length ys
perm-length Permᴰ.nil = refl
perm-length (Permᴰ.cons e p) = ap suc (perm-length p)
perm-length (Permᴰ.swap e f) = refl
perm-length (Permᴰ.trans p q) = perm-length p ∙ perm-length q
