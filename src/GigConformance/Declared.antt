-- ===== src/GigConformance/Declared.antt =====
-- The tests of src/gig_conformance.ts as statements on the run and its standard.
use coltrane.Base.{
  String, ◌≡◌, refl, ap, Bool, false, ◌&&◌, ◌||◌, Option, none, some, List, [], ◌∷◌, ◌==◌, ◌⊎◌, inl,
  inr, Some, Tells, both_tell, either_tells, any-Tells, includes-Tells, any, keep, Bool-cases,
  eq_iff, none-some, some-eq_some, true-false_absurd,
}
use coltrane.GigConformance.{
  Chair, OutputRecord, SkippedChair, SkipReason, reuse, resume, core_types, output_satisfies_type,
  is_from, records_of, is_reuse, is_reused_type, fits, is_declared,
}

-- A record is of a type by its domain type, or by its core type when the type is a core type.
abbrev pub Satisfies : OutputRecord → String → Type 0
Satisfies r declared =
    (r.domain_type ≡ declared) ⊎ (Some (λ t. t ≡ declared) core_types × (r.core_type ≡ declared))

output_satisfies_type-Tells :
    (r : OutputRecord) (d : String) → Tells (output_satisfies_type r d) (Satisfies r d)
unfolding output_satisfies_type
output_satisfies_type-Tells r d =
    either_tells (eq_iff r.domain_type d)
      (both_tell (includes-Tells d core_types) (eq_iff r.core_type d))

abbrev pub IsFrom : String → OutputRecord → Type 0
IsFrom role r = r.from_role ≡ some role

pub from_tells :
    (role : String) (o : Option String)
    → Tells (elim o [ none ↦ false | some from ↦ from == role ]) (o ≡ some role)
from_tells role none = (λ e. true-false_absurd e, λ h. none-some h)
from_tells role (some from) =
    (λ e. ap some ((eq_iff from role).0 e), λ h. (eq_iff from role).1 (some-eq_some h))

reuse-Tells : (k : SkipReason) → Tells (is_reuse k) (k ≡ reuse)
reuse-Tells reuse = (λ e. refl, λ h. refl)
reuse-Tells resume = (λ e. true-false_absurd e, λ h. ap is_reuse h)

any-keep :
    (p q : OutputRecord → Bool) (rs : List OutputRecord)
    → any p (keep q rs) ≡ any (λ r. q r && p r) rs
unfolding any keep
any-keep p q [] = refl
any-keep p q (r ∷ rs) = elim (Bool-cases (q r)) [
  | inl e ↦ rw e (ap (λ b. p r || b) (any-keep p q rs))
  | inr e ↦ rw e (any-keep p q rs)
]

-- A chair was skipped, as the type that it declares was recalled from another run.
abbrev pub IsRecalled : String → String → SkippedChair → Type 0
IsRecalled role declared sk =
    ((sk.reason ≡ reuse) × (sk.role ≡ role)) × Some (λ t. t ≡ declared) sk.output_types

-- What a chair declares was sealed by it, recalled for it, or is optional.
abbrev pub IsMet : List OutputRecord → List SkippedChair → Chair → String → Type 0
IsMet produced skipped c declared =
    (Some (λ r. IsFrom c.role r × Satisfies r declared) produced
      ⊎ Some (IsRecalled c.role declared) skipped)
    ⊎ Some (λ t. t ≡ declared) c.optional_outputs

pub fits-Tells :
    (produced : List OutputRecord) (skipped : List SkippedChair) (c : Chair) (d : String)
    → Tells (fits produced skipped c d) (IsMet produced skipped c d)
unfolding fits records_of is_reused_type
fits-Tells produced skipped c d =
    let sealed : Tells (any (λ r. output_satisfies_type r d) (keep (is_from c.role) produced))
        (Some (λ r. IsFrom c.role r × Satisfies r d) produced) =
      rw (any-keep (λ r. output_satisfies_type r d) (is_from c.role) produced) (
        any-Tells (λ r. IsFrom c.role r × Satisfies r d) _
          (λ r. both_tell (from_tells c.role r.from_role) (output_satisfies_type-Tells r d))
          produced) in
    either_tells
      (either_tells sealed (
        any-Tells (IsRecalled c.role d) _
          (λ sk.
            both_tell (both_tell (reuse-Tells sk.reason) (eq_iff sk.role c.role))
              (includes-Tells d sk.output_types))
          skipped))
      (includes-Tells d c.optional_outputs)

pub is_declared-Tells :
    (c : Chair) (r : OutputRecord) → Tells (is_declared c r) (Some (Satisfies r) c.output_contract)
unfolding is_declared
is_declared-Tells c r =
    any-Tells (Satisfies r) _ (λ d. output_satisfies_type-Tells r d) c.output_contract
