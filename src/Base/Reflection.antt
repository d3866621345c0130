-- ===== src/Base/Reflection.antt =====
-- What a Boolean test says, as a statement.
use Prim.Native.String.{String}
use mathlib.Core.Path.{◌≡◌, refl}
use mathlib.Core.Logic.{◌↔◌, ◌⊎◌, inl, inr}
use mathlib.Core.Bool.{Bool, true, false, not, ◌&&◌, ◌||◌}
use mathlib.Core.List.{List, [], ◌∷◌}
use text.Mathlib.TextEquality.{eq_iff}
use coltrane.Base.Lists.{any, includes}

-- The Boolean says whether the statement holds.
abbrev pub Tells {ℓ} : Bool → Type ℓ → Type ℓ
Tells b P = (b ≡ true) ↔ P

pub true-false_absurd {ℓ} : {P : Type ℓ} → false ≡ true → P
true-false_absurd h = cc

pub both_tell {ℓ κ} :
    {a b : Bool} {P : Type ℓ} {Q : Type κ} → Tells a P → Tells b Q → Tells (a && b) (P × Q)
both_tell {a = true} (f, g) (h, k) = (λ e. (f refl, h e), λ (p, q). k q)
both_tell {a = false} (f, g) t = (λ e. true-false_absurd e, λ (p, q). true-false_absurd (g p))

pub either_tells {ℓ κ} :
    {a b : Bool} {P : Type ℓ} {Q : Type κ} → Tells a P → Tells b Q → Tells (a || b) (P ⊎ Q)
either_tells {a = true} (f, g) t = (λ e. inl (f refl), λ s. refl)
either_tells {a = false} (f, g) (h, k) =
    (λ e. inr (h e), λ s. elim s [ inl p ↦ true-false_absurd (g p) | inr q ↦ k q ])

pub not-Tells {ℓ} : {b : Bool} {P : Type ℓ} → Tells b P → Tells (not b) (¬ P)
not-Tells {b = true} (f, g) = (λ e. true-false_absurd e, λ n. absurd (n (f refl)))
not-Tells {b = false} (f, g) = (λ e p. true-false_absurd (g p), λ n. refl)

module _ {ℓ} {A : Type ℓ} (P : A → Type 0) where
  -- Some member of a list is so.
  abbrev pub Some : List A → Type 0
  Some [] = ⊥
  Some (x ∷ xs) = P x ⊎ Some xs

  module _ (p : A → Bool) (t : (x : A) → Tells (p x) (P x)) where
    pub any-Tells : (xs : List A) → Tells (any p xs) (Some xs)
    unfolding any
    any-Tells [] = (λ e. true-false_absurd e, λ s. absurd s)
    any-Tells (x ∷ xs) = either_tells (t x) (any-Tells xs)

pub includes-Tells : (k : String) (xs : List String) → Tells (includes k xs) (Some (λ x. x ≡ k) xs)
unfolding includes
includes-Tells k [] = (λ e. true-false_absurd e, λ s. absurd s)
includes-Tells k (x ∷ xs) = either_tells (eq_iff x k) (includes-Tells k xs)
