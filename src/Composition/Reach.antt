-- ===== src/Composition/Reach.antt =====
-- `depsOf` of `composeStandard` in src/composition.ts: its fuel is enough in a graph that has an order.
use coltrane.Base.{
  ℕ, zero, suc, ◌≤◌, ◌<◌, String, true, false, ◌||◌, ◌≡◌, refl, sym, ap, ◌∙◌, subst, List, [], ◌∷◌,
  ◌++◌, keep, includes, length, Dict, keys, ◌==◌, eq_iff, eq_refl, arith, Bool-cases, inl, inr,
  true-false, tail_included,
}
use coltrane.Composition.Syntax.{Chair, StandardDef, all_chairs}
use coltrane.Composition.Graph.{dependencies, adjacency}
use coltrane.Composition.Compose.{gather, reached, deps_of, composed, compose_standard}
use coltrane.Composition.Order.{Within, IsOrder}
use coltrane.Composition.Accepted.{compose_standard-IsOrder}
use coltrane.Composition.Ending.{no_dependencies}

includes-concat :
    (x : String) (xs ys : List String) → includes x (xs ++ ys) ≡ (includes x xs || includes x ys)
unfolding includes
includes-concat x [] ys = refl
includes-concat x (z ∷ xs) ys = ground (arith, includes-concat x xs ys)

includes-gather :
    (f : String → List String) (x : String) (rs : List String)
    → includes x (gather f rs) ≡ true
    → (r : String) × (includes r rs ≡ true) × (includes x (f r) ≡ true)
unfolding includes gather
includes-gather f x [] h = cc
includes-gather f x (r ∷ rs) h = elim (Bool-cases (includes x (f r))) [
  | inl e ↦ (r, ground (arith, eq_refl r), e)
  | inr e ↦
      let later : includes x (gather f rs) ≡ true =
        ground (arith, h, e, includes-concat x (f r) (gather f rs)) in
      let (s, i, j) = includes-gather f x rs later in (s, ground (arith, i), j)
]

gather-includes :
    (f : String → List String) (x r : String) (rs : List String)
    → includes r rs ≡ true
    → includes x (f r) ≡ true
    → includes x (gather f rs) ≡ true
unfolding includes gather
gather-includes f x r [] i j = cc
gather-includes f x r (s ∷ rs) i j = elim (Bool-cases (s == r)) [
  | inl e ↦
      let here = subst (λ t. includes x (f t) ≡ true) (sym ((eq_iff s r).0 e)) j in
      ground (arith, here, includes-concat x (f s) (gather f rs))
  | inr e ↦
      let there = gather-includes f x r rs (ground (arith, i, e)) j in
      ground (arith, there, includes-concat x (f s) (gather f rs))
]

-- How many of `ks` are in `xs`
abbrev weight : List String → List String → ℕ
weight xs ks = length (keep (λ k. includes k xs) ks)

weight-le : (xs ys ks : List String) → Within xs ys → weight xs ks ≤ weight ys ks
unfolding keep
weight-le xs ys [] w = omega arith
weight-le xs ys (k ∷ ks) w = let more = weight-le xs ys ks w in ground (arith, more, w k)

weight-lt :
    (r : String) (xs ys ks : List String)
    → Within xs ys
    → includes r xs ≡ false
    → includes r ys ≡ true
    → includes r ks ≡ true
    → weight xs ks < weight ys ks
unfolding keep includes
weight-lt r xs ys [] w a b i = cc
weight-lt r xs ys (k ∷ ks) w a b i = elim (Bool-cases (k == r)) [
  | inl e ↦
      let same = (eq_iff k r).0 e in
      let absent = subst (λ t. includes t xs ≡ false) (sym same) a in
      let present = subst (λ t. includes t ys ≡ true) (sym same) b in
      let more = weight-le xs ys ks w in rw (absent, present) (omega (arith, more))
  | inr e ↦
      let more = weight-lt r xs ys ks w a b (ground (arith, i, e)) in ground (arith, more, w k)
]

module _ (adj : Dict (List String)) where
  -- The part of an order behind the last place of a role
  behind :
      (r : String) (order : List String)
      → IsOrder adj order
      → includes r order ≡ true
      → (rest : List String) × IsOrder adj rest
        × Within (dependencies adj r) rest
        × (includes r rest ≡ false)
        × Within rest order
  unfolding IsOrder includes
  behind r [] o i = cc
  behind r (x ∷ xs) o i = elim (Bool-cases (includes r xs)) [
    | inl e ↦
        let (rest, ordered, deps, absent, within) = behind r xs o.1 e in
        (rest, ordered, deps, absent, λ s j. tail_included s x xs (within s j))
    | inr e ↦
        let same : x ≡ r = (eq_iff x r).0 (ground (arith, i, e)) in
        (
          xs,
          o.1,
          subst (λ t. Within (dependencies adj t) xs) same o.0,
          e,
          λ s j. tail_included s x xs j,
        )
  ]

  reached_roots :
      (fuel : ℕ) (roles : List String) (y : String)
      → includes y roles ≡ true
      → includes y (reached adj fuel roles) ≡ true
  unfolding reached
  reached_roots zero roles y i = i
  reached_roots (suc fuel) roles y i = ground (
    arith,
    i,
    includes-concat y roles (gather (λ role. reached adj fuel (dependencies adj role)) roles),
  )

  reached_nil : (fuel : ℕ) → reached adj fuel [] ≡ []
  unfolding reached gather
  reached_nil zero = refl
  reached_nil (suc fuel) = refl

  has_key : (x y : String) → includes y (dependencies adj x) ≡ true → includes x (keys adj) ≡ true
  unfolding includes
  has_key x y i = elim (Bool-cases (includes x (keys adj))) [
    | inl e ↦ e
    | inr e ↦ true-false (sym i ∙ ap (includes y) (no_dependencies adj x e))
  ]

  keyed_root :
      (fuel : ℕ) (r x : String)
      → includes x (reached adj fuel (dependencies adj r)) ≡ true
      → includes r (keys adj) ≡ true
  unfolding includes
  keyed_root fuel r x i = elim (Bool-cases (includes r (keys adj))) [
    | inl e ↦ e
    | inr e ↦ true-false (
        sym i
        ∙ (ap (λ roles. includes x (reached adj fuel roles)) (no_dependencies adj r e)
            ∙ ap (includes x) (reached_nil fuel)))
  ]

  -- With fuel for each of its keys, what is reached from roles of an order has all its dependencies.
  reached-closed :
      (fuel : ℕ) (order roles : List String) (x y : String)
      → IsOrder adj order
      → Within roles order
      → weight order (keys adj) ≤ fuel
      → includes x (reached adj fuel roles) ≡ true
      → includes y (dependencies adj x) ≡ true
      → includes y (reached adj fuel roles) ≡ true
  unfolding reached includes
  reached-closed zero order roles x y o w n i d =
      let more =
        weight-lt x [] order (keys adj) (λ s j. true-false (sym j)) refl (w x i) (has_key x y d) in
      absurd (omega (arith, more, n))
  reached-closed (suc fuel) order roles x y o w n i d =
      let next : String → List String = λ role. reached adj fuel (dependencies adj role) in
      includes-concat y roles (gather next roles) ∙ elim (Bool-cases (includes x roles)) [
        | inl e ↦
            let found =
              gather-includes next y x roles e (reached_roots fuel (dependencies adj x) y d) in
            ground (arith, found)
        | inr e ↦
            let far : includes x (gather next roles) ≡ true =
              ground (arith, i, e, includes-concat x roles (gather next roles)) in
            let (r, from, reach) = includes-gather next x roles far in
            let (rest, ordered, deps, absent, within) = behind r order o (w r from) in
            let keyed = keyed_root fuel r x reach in
            let less = weight-lt r rest order (keys adj) within absent (w r from) keyed in
            let found = gather-includes next y r roles from (
              reached-closed fuel rest (dependencies adj r) x y ordered deps
                (omega (arith, less, n)) reach d) in
            ground (arith, found)
      ]

length-keys-adjacency : (chairs : List Chair) → length (keys (adjacency chairs)) ≡ length chairs
unfolding keys adjacency
length-keys-adjacency [] = refl
length-keys-adjacency (ch ∷ chairs) = ap suc (length-keys-adjacency chairs)

weight_bound : (xs ks : List String) → weight xs ks ≤ length ks
unfolding keep
weight_bound xs [] = omega arith
weight_bound xs (k ∷ ks) = let more = weight_bound xs ks in ground (arith, more)

-- In a standard that is composed, the roles that `depsOf` gathers for a role are the roles that it depends on,
-- with all that these depend on: the fuel never cuts a chain short.
deps_of-closed :
    (def s : StandardDef)
    → compose_standard def ≡ composed s
    → let chairs = all_chairs def.phases in
      (role : String)
      → Within (dependencies (adjacency chairs) role) (deps_of chairs role)
        × ((x y : String)
            → includes x (deps_of chairs role) ≡ true
            → includes y (dependencies (adjacency chairs) x) ≡ true
            → includes y (deps_of chairs role) ≡ true)
unfolding deps_of
deps_of-closed def s h role =
    let chairs = all_chairs def.phases in
    let adj = adjacency chairs in
    let (order, ordered, all) = compose_standard-IsOrder def s h in
    (
      λ y i. reached_roots adj (length chairs) (dependencies adj role) y i,
      λ x y i d.
          let keyed = keyed_root adj (length chairs) role x i in
          let (rest, tail, deps, absent, within) = behind adj role order ordered (all role keyed) in
          let bound = weight_bound rest (keys adj) in
          let size = length-keys-adjacency chairs in
          reached-closed adj (length chairs) rest (dependencies adj role) x y tail deps
            (omega (arith, bound, size)) i d,
    )
