-- ===== src/Base/Sets.antt =====
-- Lists of names read as sets.
use Prim.Native.String.{String}
use mathlib.Core.Path.{◌≡◌, refl, sym, subst}
use mathlib.Core.Logic.{inl, inr}
use mathlib.Core.Bool.{Bool, true, false, not, ◌&&◌, ◌||◌}
use mathlib.Core.List.{List, [], ◌∷◌, ◌++◌, map}
use native.Mathlib.Omega.{arith}
use text.Mathlib.Text.{◌==◌}
use text.Mathlib.TextEquality.{eq_iff}
use text.Mathlib.TextPositions.{eq_refl}
use coltrane.Base.Tests.{Bool-cases}
use coltrane.Base.Lists.{includes, keep}

pub head_included : (x : String) (xs : List String) → includes x (x ∷ xs) ≡ true
unfolding includes
head_included x xs = rw (eq_refl x)

pub tail_included :
    (n x : String) (xs : List String) → includes n xs ≡ true → includes n (x ∷ xs) ≡ true
unfolding includes
tail_included n x xs h = ground arith

pub map-nil {ℓ κ} : {A : Type ℓ} {B : Type κ} (k : A → B) (xs : List A) → map k xs ≡ [] → xs ≡ []
map-nil k [] h = refl
map-nil k (x ∷ xs) h = cc

pub append-nil {ℓ} : {A : Type ℓ} (xs ys : List A) → xs ++ ys ≡ [] → (xs ≡ []) × (ys ≡ [])
append-nil [] ys h = (refl, h)
append-nil (x ∷ xs) ys h = cc

pub cons-nil {ℓ κ} : {A : Type ℓ} {B : Type κ} {x : A} {xs : List A} → x ∷ xs ≡ [] → B
cons-nil h = cc

-- The names of `xs` that are not among `ys`: `xs.filter((x) => !ys.has(x))`
abbrev pub missing : List String → List String → List String
missing xs ys = keep (λ x. not (includes x ys)) xs

pub missing-none :
    (xs ys : List String) (n : String)
    → missing xs ys ≡ []
    → includes n xs ≡ true
    → includes n ys ≡ true
unfolding keep includes
missing-none [] ys n h i = cc
missing-none (x ∷ xs) ys n h i = elim (Bool-cases (includes x ys)) [
  | inl b ↦ ground (arith, missing-none xs ys n (rw b at h), eq_iff x n)
  | inr b ↦ cons-nil (rw b at h)
]

pub none-missing :
    (xs ys : List String)
    → ((n : String) → includes n xs ≡ true → includes n ys ≡ true)
    → missing xs ys ≡ []
unfolding keep includes
none-missing [] ys h = refl
none-missing (x ∷ xs) ys h =
    rw (h x (head_included x xs), none-missing xs ys (λ n i. h n (tail_included n x xs i)))

-- No text occurs twice.
unfoldable pub Unique : List String → Type 0
Unique [] = Unit
Unique (x ∷ xs) = (includes x xs ≡ false) × Unique xs

pub includes-append :
    (p x : String) (xs : List String) → includes p (xs ++ x ∷ []) ≡ (includes p xs || x == p)
unfolding includes
includes-append p x [] = ground arith
includes-append p x (y ∷ xs) = ground (arith, includes-append p x xs)

pub Unique-append :
    (x : String) (xs : List String) → includes x xs ≡ false → Unique xs → Unique (xs ++ x ∷ [])
unfolding includes Unique
Unique-append x [] h u = (refl, tt)
Unique-append x (y ∷ xs) h (n, u) = (
  ground (arith, includes-append y x xs, n, h, eq_iff x y, eq_iff y x, eq_refl x),
  Unique-append x xs (ground (arith, h)) u,
)

pub includes-keep :
    (p : String → Bool) (t : String) (xs : List String)
    → includes t (keep p xs) ≡ (includes t xs && p t)
unfolding includes keep
includes-keep p t [] = refl
includes-keep p t (x ∷ xs) = elim (Bool-cases (x == t)) [
  | inl b ↦
      subst (λ y. includes t (keep p (y ∷ xs)) ≡ (includes t (y ∷ xs) && p t))
        (sym ((eq_iff x t).0 b)) (ground (arith, eq_refl t, includes-keep p t xs))
  | inr b ↦ ground (arith, b, includes-keep p t xs)
]

pub true-false {ℓ} : {B : Type ℓ} → true ≡ false → B
true-false h = cc
