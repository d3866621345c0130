-- ===== src/Composition/Compose.antt =====
-- The check for cycles between agents in src/composition.ts, and `composeStandard` as a whole.
use coltrane.Base.{
  ℕ, zero, suc, String, Bool, true, false, not, ◌&&◌, ◌||◌, Option, none, some, List, [], ◌∷◌, ◌++◌,
  any, all, map, find, keep, includes, Dict, ltb, length, if◌then◌else◌,
}
use coltrane.Composition.Syntax.{
  Agent, Chair, StandardDef, Check, unless, and_then, each_passes, all_chairs, agent_by_slug,
  CompositionError, agent_cycle,
}
use coltrane.Composition.Chairs.{phases_check}
use coltrane.Composition.Graph.{adjacency, dependencies, edges_check, search, cycle_check}
use coltrane.Composition.Flow.{input_check, domain_check, flow_check}

unfoldable pub gather {ℓ κ} : {A : Type ℓ} {B : Type κ} → (A → List B) → List A → List B
gather f [] = []
gather f (x ∷ xs) = f x ++ gather f xs

-- The roles, and those that chains of at most `fuel` dependencies reach from them
unfoldable pub reached : Dict (List String) → ℕ → List String → List String
unfolding dependencies gather
reached adj zero roles = roles
reached adj (suc fuel) roles =
    roles ++ gather (λ role. reached adj fuel (dependencies adj role)) roles

-- `depsOf(role)`, on a graph that has no cycle: no chain is longer than the list of roles.
unfoldable pub deps_of : List Chair → String → List String
unfolding reached dependencies adjacency
deps_of chairs role =
    reached (adjacency chairs) (length chairs) (dependencies (adjacency chairs) role)

unfoldable pub producer_roles : String → List Chair → List String
producer_roles t chairs = map (λ c. c.role) (keep (λ c. includes t c.output_contract) chairs)

unfoldable pub consumer_roles : String → List Chair → List String
consumer_roles t chairs = map (λ c. c.role) (keep (λ c. includes t c.input_contract) chairs)

unfoldable pub pipeline_ordered : List Chair → String → Bool
unfolding producer_roles consumer_roles deps_of
pipeline_ordered chairs t =
    ltb 0 (length (producer_roles t chairs))
    && all (λ c. any (λ p. includes p (deps_of chairs c)) (producer_roles t chairs))
        (consumer_roles t chairs)

-- Whether a type that an agent reads and an agent writes makes no cycle of this standard
unfoldable pub is_exempt : List String → List Chair → String → Bool
unfolding pipeline_ordered producer_roles consumer_roles
is_exempt standard_inputs chairs t =
    not (ltb 0 (length (producer_roles t chairs)) && ltb 0 (length (consumer_roles t chairs)))
    || (includes t standard_inputs || pipeline_ordered chairs t)

abbrev feeds_back : Agent → Agent → Bool
feeds_back producer ag = any (λ p. includes p ag.output_types) producer.input_types

abbrev producer_check : Agent → Option Agent → Check
producer_check ag none = none
producer_check ag (some producer) =
    unless (not (feeds_back producer ag)) (agent_cycle ag.slug producer.slug)

abbrev producing_check : List Agent → Agent → Option Agent → Check
producing_check agents ag none = none
producing_check agents ag (some first) = producer_check ag (agent_by_slug first.slug agents)

unfoldable pub agent_cycle_check : List Agent → List String → List Chair → Agent → Check
unfolding is_exempt agent_by_slug
agent_cycle_check agents standard_inputs chairs ag =
    each_passes
      (λ it.
        if is_exempt standard_inputs chairs it
        then none
        else producing_check agents ag (find (λ a. includes it a.output_types) agents))
      ag.input_types

-- `[...new Set(xs)]`
unfoldable pub distinct : List String → List String → List String
distinct seen [] = []
distinct seen (x ∷ xs) = elim (includes x seen) [
  | true ↦ distinct seen xs
  | false ↦ x ∷ distinct (x ∷ seen) xs
]

unfoldable pub standard_check : StandardDef → Check
unfolding all_chairs phases_check edges_check search input_check domain_check flow_check
    agent_cycle_check
standard_check def =
    let chairs = all_chairs def.phases in
    and_then (phases_check def.agents [] def.phases) (
      and_then (edges_check def.phases 0 def.phases) (
        and_then (cycle_check (search (adjacency chairs))) (
          and_then (each_passes (input_check def.input_types chairs) chairs) (
            and_then (each_passes (domain_check def.agents def.domain) chairs) (
              and_then (flow_check def.agents def.input_types 0 def.input_types [] def.phases)
                (each_passes (agent_cycle_check def.agents def.input_types chairs) def.agents))))))

pub data Composed : Type 0 where
  composed : StandardDef → Composed
  rejected : CompositionError → Composed

abbrev pub composed_or : StandardDef → Check → Composed
composed_or def none = composed (record def { input_types = distinct [] def.input_types })
composed_or def (some e) = rejected e

unfoldable pub compose_standard : StandardDef → Composed
unfolding standard_check distinct
compose_standard def = composed_or def (standard_check def)
