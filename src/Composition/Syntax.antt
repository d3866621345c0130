-- ===== src/Composition/Syntax.antt =====
-- What src/composition.ts composes: agents, chairs in phases, and the refusals. An absent slug is the empty
-- text, as the code tests both by their truth; an absent list is the empty list.
use coltrane.Base.{
  String, Bool, true, false, Option, none, some, List, [], ◌∷◌, ◌++◌, Dict, ◌==◌, if◌then◌else◌,
}
use coltrane.FanOut.Records.{FanOut}

pub data Primitive : Type 0 where
  sense interpret judge plan create verify : Primitive

pub data Binding : Type 0 where
  of_institution of_gig : Binding

pub record HydrationSlot : Type 0 where
  pub required : Bool
  pub binding : Binding

pub record CarriedSkill : Type 0 where
  pub slug : String
  pub hydration : Dict HydrationSlot

pub record Agent : Type 0 where
  pub slug : String
  pub domain : Option String
  pub primitives : List Primitive
  pub input_types : List String
  pub required_inputs : List String
  pub output_types : List String
  pub skill_slugs : List String
  pub skills : List CarriedSkill
  pub allowed_tools : List String

pub record Chair : Type 0 where
  pub role : String
  pub agent_slug : String
  pub skill_slug : String
  pub human : Bool
  pub allowed_tools : Option (List String)
  pub depends_on : List String
  pub input_contract : List String
  pub output_contract : List String
  pub optional_inputs : List String
  pub optional_outputs : List String
  pub required_skills : List String
  pub supplies : List String
  pub prime : Option String
  pub fork_from : Option String
  pub fan_out : Option FanOut

pub record PhaseDef : Type 0 where
  pub name : String
  pub chairs : List Chair

pub record StandardDef : Type 0 where
  pub slug : String
  pub domain : String
  pub agents : List Agent
  pub phases : List PhaseDef
  pub input_types : List String

-- The errors that `composeStandard` throws, in its order
pub data CompositionError : Type 0 where
  empty_phase : String → CompositionError
  role_twice_in_phase role_twice : String → CompositionError
  primes_another_area : String → CompositionError
  splits_no_input : String → String → CompositionError
  human_fan_out : String → CompositionError
  no_primer_slug : String → CompositionError
  unknown_agent : String → String → CompositionError
  missing_skill : String → String → CompositionError
  dead_slot : String → String → CompositionError
  omits_required_input : String → String → CompositionError
  feeds_undeclared : String → String → CompositionError
  reaches_no_tool : String → CompositionError
  promises_nothing : String → CompositionError
  no_such_output : String → String → CompositionError
  no_such_input : String → String → CompositionError
  skill_promises_many human_promises_many : String → CompositionError
  depends_on_itself : String → CompositionError
  unknown_dependency : String → String → CompositionError
  forward_dependency : String → String → CompositionError
  dependency_cycle : String → String → CompositionError
  no_fuel : CompositionError
  unmet_input : String → String → CompositionError
  foreign_agent : String → CompositionError
  not_produced : String → String → CompositionError
  no_reasoning no_target : String → String → CompositionError
  agent_cycle : String → String → CompositionError

-- A check passes, or throws; of two checks the first to throw is thrown.
abbrev pub Check : Type 0
Check = Option CompositionError

abbrev pub unless : Bool → CompositionError → Check
unless true e = none
unless false e = some e

unfoldable pub and_then : Check → Check → Check
and_then none next = next
and_then (some e) next = some e

-- A loop whose body may throw
unfoldable pub each_passes {ℓ} : {A : Type ℓ} → (A → Check) → List A → Check
each_passes f [] = none
each_passes f (x ∷ xs) = and_then (f x) (each_passes f xs)

-- `phases.flatMap(p => p.chairs)`
unfoldable pub all_chairs : List PhaseDef → List Chair
all_chairs [] = []
all_chairs (p ∷ ps) = p.chairs ++ all_chairs ps

-- `agentBySlug.get(slug)`: of two agents with one slug the map holds the last.
unfoldable pub agent_by_slug : String → List Agent → Option Agent
agent_by_slug slug [] = none
agent_by_slug slug (a ∷ more) = elim (agent_by_slug slug more) [
  | some b ↦ some b
  | none ↦ if a.slug == slug then some a else none
]
