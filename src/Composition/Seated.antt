-- ===== src/Composition/Seated.antt =====
-- The chairs of a standard that src/composition.ts composes: what they are fed, and who sits in them.
use coltrane.Base.{
  String, ◌≡◌, refl, sym, ◌⊎◌, inl, inr, true, ◌||◌, Option, none, some, List, [], ◌∷◌, ◌++◌,
  includes, All, Bool-cases, ◌==◌, arith, true-false, head_included, tail_included,
}
use coltrane.Composition.Syntax.{Chair, StandardDef, all_chairs}
use coltrane.Composition.Flow.{input_check, chair_by_role, outputs_at, upstream_outputs}
use coltrane.Composition.Compose.{composed, compose_standard}
use coltrane.Composition.Accepted.{
  each_passes-none, unless-none, All-map, compose_standard-IsChecked,
}

-- One of the chairs that `deps` names promises `t`.
abbrev pub Produces : List Chair → List String → String → Type 0
Produces chairs deps t =
    (dep : String) × (up : Chair) × (includes dep deps ≡ true)
    × (chair_by_role dep chairs ≡ some up)
    × (includes t up.output_contract ≡ true)

includes-append_cases :
    (t : String) (xs ys : List String)
    → includes t (xs ++ ys) ≡ true
    → (includes t xs ≡ true) ⊎ (includes t ys ≡ true)
unfolding includes
includes-append_cases t [] ys h = inr h
includes-append_cases t (x ∷ xs) ys h = elim (Bool-cases (x == t)) [
  | inl e ↦ inl (ground (arith, e))
  | inr e ↦ elim (includes-append_cases t xs ys (rw e at h)) [
    | inl i ↦ inl (ground (arith, i))
    | inr i ↦ inr i
  ]
]

promised :
    (o : Option Chair) (t : String)
    → includes t (outputs_at o) ≡ true
    → (up : Chair) × (o ≡ some up) × (includes t up.output_contract ≡ true)
unfolding includes
promised none t h = true-false (sym h)
promised (some up) t h = (up, refl, h)

upstream_outputs-Produces :
    (chairs : List Chair) (deps : List String) (t : String)
    → includes t (upstream_outputs chairs deps) ≡ true
    → Produces chairs deps t
unfolding upstream_outputs includes
upstream_outputs-Produces chairs [] t h = true-false (sym h)
upstream_outputs-Produces chairs (dep ∷ deps) t h =
    elim (includes-append_cases t (outputs_at (chair_by_role dep chairs))
      (upstream_outputs chairs deps) h) [
        | inl i ↦
            let (up, found, made) = promised (chair_by_role dep chairs) t i in
            (dep, up, head_included dep deps, found, made)
        | inr i ↦
            let (d, up, among, found, made) = upstream_outputs-Produces chairs deps t i in
            (d, up, tail_included d dep deps among, found, made)
      ]

-- A need of a chair is a gig input, or made by a chair that it depends on, or optional.
abbrev pub IsFed : List String → List Chair → Chair → String → Type 0
IsFed gig_inputs chairs ch need =
    (includes need gig_inputs ≡ true)
    ⊎ Produces chairs ch.depends_on need
    ⊎ (includes need ch.optional_inputs ≡ true)

IsFed-by :
    (gig_inputs : List String) (chairs : List Chair) (ch : Chair) (need : String)
    → (includes need (gig_inputs ++ upstream_outputs chairs ch.depends_on)
        || includes need ch.optional_inputs)
      ≡ true
    → IsFed gig_inputs chairs ch need
IsFed-by gig_inputs chairs ch need h =
    elim (Bool-cases (includes need (gig_inputs ++ upstream_outputs chairs ch.depends_on))) [
      | inl e ↦ elim (includes-append_cases need gig_inputs _ e) [
        | inl g ↦ inl g
        | inr u ↦ inr (inl (upstream_outputs-Produces chairs ch.depends_on need u))
      ]
      | inr e ↦ inr (inr (rw e at h))
    ]

-- In a standard that is composed, each type in the input contract of each chair is an input of the standard,
-- or is promised by a chair that this one depends on, or is marked optional.
pub compose_standard-IsFed :
    (def s : StandardDef)
    → compose_standard def ≡ composed s
    → All
        (λ ch. All (IsFed def.input_types (all_chairs def.phases) ch) ch.input_contract)
        (all_chairs def.phases)
unfolding input_check
compose_standard-IsFed def s h =
    All-map
      (λ ch passed.
        All-map
          (λ need ok. IsFed-by def.input_types (all_chairs def.phases) ch need (unless-none _ _ ok))
          ch.input_contract (each_passes-none _ ch.input_contract passed))
      (all_chairs def.phases)
      (each_passes-none _ (all_chairs def.phases) (compose_standard-IsChecked def s h).inputs)
