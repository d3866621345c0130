-- ===== src/Composition/Agents.antt =====
-- `defineAgent` and `standardContentHash` of src/composition.ts. What the schema of an agent makes of a
-- definition is an argument; the lists that it leaves out are empty.
use coltrane.Base.{
  ℕ, suc, String, Bool, true, false, not, Option, none, some, List, [], ◌∷◌, ◌++◌, any, eqb, length,
  is_blank,
}
use coltrane.Base.Json.{Json, Fields, null, str, obj, end, field}
use coltrane.Canonical.{canon_structural_json}
use coltrane.Composition.Syntax.{Primitive, sense, interpret, judge, plan, create, verify, Agent}

-- A definition as it is written: a list is missing where the text has no list there, and a text where it has
-- no text.
pub record AgentDef : Type 0 where
  pub slug : String
  pub primitives : Option (List Primitive)
  pub identity : Option String
  pub method : Option String
  pub behavioral_primitives : Option (List String)
  pub constraints : Option (List String)

-- The first four are thrown as a CompositionError, the others as a GenomeIncompleteError.
pub data AgentError : Type 0 where
  primitives_no_list no_primitives : AgentError
  create_without_reasoning verify_without_target : ℕ → AgentError
  no_identity no_method no_disposition : AgentError
  no_pair : ℕ → AgentError
  no_constraints : AgentError
  schema_error : String → AgentError

abbrev pub AgentCheck : Type 0
AgentCheck = Option AgentError

unfoldable pub or_then : AgentCheck → AgentCheck → AgentCheck
or_then none next = next
or_then (some e) next = some e

abbrev pub demand : Bool → AgentError → AgentCheck
demand true e = none
demand false e = some e

abbrev pub reasons : Primitive → Bool
reasons interpret = true
reasons plan = true
reasons _ = false

-- The primitive at position `i`, with those before it
abbrev pub position_check : List Primitive → ℕ → Primitive → AgentCheck
position_check upstream i create = demand (any reasons upstream) (create_without_reasoning i)
position_check upstream i verify = demand (not (eqb (length upstream) 0)) (verify_without_target i)
position_check upstream i _ = none

unfoldable pub positions_check : List Primitive → ℕ → List Primitive → AgentCheck
unfolding or_then
positions_check upstream i [] = none
positions_check upstream i (p ∷ ps) =
    or_then (position_check upstream i p) (positions_check (upstream ++ p ∷ []) (suc i) ps)

-- The loop begins at position 1.
unfoldable pub primitives_check : Option (List Primitive) → AgentCheck
unfolding positions_check
primitives_check none = some primitives_no_list
primitives_check (some []) = some no_primitives
primitives_check (some (p ∷ ps)) = positions_check (p ∷ []) 1 ps

abbrev pub says : Option String → Bool
says none = false
says (some s) = not (is_blank s)

abbrev pub disposition_check : Option (List String) → AgentCheck
disposition_check none = some no_disposition
disposition_check (some []) = some no_disposition
disposition_check (some (r ∷ rs)) = demand (eqb (length (r ∷ rs)) 2) (no_pair (length (r ∷ rs)))

abbrev pub constraints_check : Option (List String) → AgentCheck
constraints_check none = some no_constraints
constraints_check (some cs) = none

unfoldable pub agent_def_check : AgentDef → AgentCheck
unfolding or_then primitives_check
agent_def_check def = or_then (primitives_check def.primitives) (
    or_then (demand (says def.identity) no_identity) (
      or_then (demand (says def.method) no_method) (
        or_then (disposition_check def.behavioral_primitives) (constraints_check def.constraints))))

-- `PRIMITIVE_OUTPUT_TYPE`
abbrev pub primitive_output_type : Primitive → String
primitive_output_type sense = "Signal"
primitive_output_type interpret = "Interpretation"
primitive_output_type judge = "Judgment"
primitive_output_type plan = "Plan"
primitive_output_type create = "Artifact"
primitive_output_type verify = "Verdict"

-- `prims.map(…).slice(-1)`
unfoldable pub last_output : List Primitive → List String
last_output [] = []
last_output (p ∷ []) = primitive_output_type p ∷ []
last_output (p ∷ q ∷ ps) = last_output (q ∷ ps)

abbrev pub given_outputs : List String → List String → List String
given_outputs [] others = others
given_outputs (t ∷ ts) others = t ∷ ts

pub data Parsed : Type 0 where
  parsed : Agent → Parsed
  unparsed : String → Parsed

pub data Defined : Type 0 where
  defined : Agent → Defined
  rejected : AgentError → Defined

abbrev pub primitives_of : Option (List Primitive) → List Primitive
primitives_of none = []
primitives_of (some ps) = ps

module _ (parse : AgentDef → Parsed) where
  unfoldable pub with_outputs : AgentDef → Parsed → Defined
  unfolding last_output
  with_outputs def (unparsed why) = rejected (schema_error why)
  with_outputs def (parsed a) = defined (record a {
    output_types = given_outputs a.output_types (last_output (primitives_of def.primitives));
  })

  abbrev pub defined_or : AgentDef → AgentCheck → Defined
  defined_or def (some e) = rejected e
  defined_or def none = with_outputs def (parse def)

  unfoldable pub define_agent : AgentDef → Defined
  unfolding agent_def_check with_outputs
  define_agent def = defined_or def (agent_def_check def)

-- The record that a standard is hashed from; what it does not state is null, as an absent key states nothing.
pub record StandardContent : Type 0 where
  pub slug : String
  pub domain : Option String
  pub phases : Json
  pub input_types : Json
  pub output_types : Json
  pub eval_slugs : Json
  pub max_examine_rounds : Json
  pub reserve_pool : Json
  pub description : Json

abbrev pub text_or_null : Option String → Json
text_or_null none = null
text_or_null (some s) = str s

unfoldable pub standard_fields : StandardContent → Fields
standard_fields def = field "slug" (str def.slug) (
    field "domain" (text_or_null def.domain) (
      field "phases" def.phases (
        field "input_types" def.input_types (
          field "output_types" def.output_types (
            field "eval_slugs" def.eval_slugs (
              field "max_examine_rounds" def.max_examine_rounds (
                field "reserve_pool" def.reserve_pool
                  (field "description" def.description end))))))))

-- `standardContentHash`
unfoldable pub standard_content_hash : (String → String) → StandardContent → String
unfolding standard_fields canon_structural_json
standard_content_hash sha256_hex def =
    sha256_hex (canon_structural_json (obj (standard_fields def)))
