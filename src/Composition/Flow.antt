-- ===== src/Composition/Flow.antt =====
-- The flow of types through the chairs of a standard in src/composition.ts. Where the code reads an agent
-- that an earlier check has found, a missing one passes here.
use coltrane.Base.{
  ℕ, suc, String, Bool, true, false, not, ◌&&◌, ◌||◌, Option, none, some, List, [], ◌∷◌, ◌++◌, any,
  includes, ltb, eqb, length, ◌==◌, if◌then◌else◌,
}
use coltrane.Composition.Syntax.{
  Primitive, interpret, plan, create, verify, Agent, Chair, PhaseDef, Check, unless, and_then,
  each_passes, agent_by_slug, unmet_input, foreign_agent, not_produced, no_reasoning, no_target,
}

-- `chairByRole.get(role)`: of two chairs with one role the map holds the last.
unfoldable pub chair_by_role : String → List Chair → Option Chair
chair_by_role role [] = none
chair_by_role role (ch ∷ chairs) = elim (chair_by_role role chairs) [
  | some c ↦ some c
  | none ↦ if ch.role == role then some ch else none
]

abbrev pub outputs_at : Option Chair → List String
outputs_at none = []
outputs_at (some ch) = ch.output_contract

-- The outputs of the chairs that a chair depends on
unfoldable pub upstream_outputs : List Chair → List String → List String
unfolding chair_by_role
upstream_outputs chairs [] = []
upstream_outputs chairs (dep ∷ deps) =
    outputs_at (chair_by_role dep chairs) ++ upstream_outputs chairs deps

-- Each input of a chair is a gig input, an output of a chair that it depends on, or optional.
unfoldable pub input_check : List String → List Chair → Chair → Check
unfolding upstream_outputs
input_check gig_inputs chairs ch =
    each_passes
      (λ need.
        unless
          (includes need (gig_inputs ++ upstream_outputs chairs ch.depends_on)
            || includes need ch.optional_inputs)
          (unmet_input ch.role need))
      ch.input_contract

-- A chair that a skill or a person backs has no agent to check.
abbrev pub is_agentless : Chair → Bool
is_agentless ch = (not (ch.skill_slug == "") || ch.human) && ch.agent_slug == ""

abbrev domain_of_agent : String → Option Agent → Check
domain_of_agent domain none = none
domain_of_agent domain (some ag) = elim ag.domain [
  | none ↦ none
  | some d ↦ unless (d == domain) (foreign_agent ag.slug)
]

unfoldable pub domain_check : List Agent → String → Chair → Check
unfolding agent_by_slug
domain_check agents domain ch =
    if is_agentless ch then none else domain_of_agent domain (agent_by_slug ch.agent_slug agents)

abbrev is_reasoning : Primitive → Bool
is_reasoning interpret = true
is_reasoning plan = true
is_reasoning _ = false

-- What a placement consumes: its contract, or without one and without dependencies the agent's inputs
abbrev pub consumed_by : Chair → Agent → List String
consumed_by ch ag =
    if ltb 0 (length ch.input_contract)
    then ch.input_contract
    else if eqb (length ch.depends_on) 0
    then ag.input_types
    else []

-- The check of the agent's first primitive against the primitives of the phases before
unfoldable pub first_primitive_check :
    String → List String → List Primitive → Agent → List Primitive → Check
first_primitive_check phase gig_inputs upstream ag (create ∷ rest) =
    unless
      (any is_reasoning rest
        || (any is_reasoning upstream || any (λ it. includes it gig_inputs) ag.input_types))
      (no_reasoning phase ag.slug)
first_primitive_check phase gig_inputs upstream ag (verify ∷ rest) =
    unless (ltb 0 (length upstream) || ltb 0 (length rest)) (no_target phase ag.slug)
first_primitive_check phase gig_inputs upstream ag _ = none

unfoldable pub placement_check :
    ℕ → String → List String → List String → List Primitive → Chair → Option Agent → Check
unfolding first_primitive_check
placement_check i phase gig_inputs outputs upstream ch none = none
placement_check i phase gig_inputs outputs upstream ch (some ag) =
    and_then
      (if ltb 0 i
        then each_passes (λ it. unless (it == "" || includes it outputs) (not_produced phase it))
            (consumed_by ch ag)
        else none)
      (first_primitive_check phase gig_inputs upstream ag ag.primitives)

unfoldable pub chair_flow_check :
    List Agent → ℕ → String → List String → List String → List Primitive → Chair → Check
unfolding placement_check agent_by_slug
chair_flow_check agents i phase gig_inputs outputs upstream ch =
    if is_agentless ch
    then none
    else placement_check i phase gig_inputs outputs upstream ch (agent_by_slug ch.agent_slug agents)

abbrev produced_by : Chair → Option Agent → List String
produced_by ch none = []
produced_by ch (some ag) = ag.output_types

abbrev primitives_by : Option Agent → List Primitive
primitives_by none = []
primitives_by (some ag) = ag.primitives

-- What the chairs of a phase add to the outputs, and to the primitives, of the phases before
unfoldable pub outputs_after : List Agent → List String → List Chair → List String
unfolding agent_by_slug
outputs_after agents outputs [] = outputs
outputs_after agents outputs (ch ∷ chairs) =
    outputs_after agents
      (outputs
        ++ (if is_agentless ch
            then ch.output_contract
            else produced_by ch (agent_by_slug ch.agent_slug agents)))
      chairs

unfoldable pub primitives_after : List Agent → List Primitive → List Chair → List Primitive
unfolding agent_by_slug
primitives_after agents upstream [] = upstream
primitives_after agents upstream (ch ∷ chairs) =
    primitives_after agents
      (upstream
        ++ (if is_agentless ch then [] else primitives_by (agent_by_slug ch.agent_slug agents)))
      chairs

unfoldable pub flow_check :
    List Agent → List String → ℕ → List String → List Primitive → List PhaseDef → Check
unfolding chair_flow_check outputs_after primitives_after
flow_check agents gig_inputs i outputs upstream [] = none
flow_check agents gig_inputs i outputs upstream (p ∷ phases) =
    and_then (each_passes (chair_flow_check agents i p.name gig_inputs outputs upstream) p.chairs) (
      flow_check agents gig_inputs (suc i) (outputs_after agents outputs p.chairs)
        (primitives_after agents upstream p.chairs) phases)
