-- ===== src/Composition/Tests.antt =====
-- A standard of two chairs, composed, and the theorems on it.
use coltrane.Base.{
  String, ◌≡◌, ◌≢◌, refl, false, none, List, [], ◌∷◌, All, Unique, keys, includes, any, lookup,
  keep, all,
}
use coltrane.Composition.Syntax.{
  Agent, Chair, StandardDef, all_chairs, interpret, create, dependency_cycle, and_then, each_passes,
}
use coltrane.Composition.Graph.{adjacency, search, exhausted}
use coltrane.Composition.Order.{IsOrder, Within}
use coltrane.Composition.Ending.{search_ends}
use coltrane.Composition.Compose.{composed, rejected, compose_standard}
use coltrane.Composition.Accepted.{compose_standard-IsOrder}
use coltrane.Composition.Seated.{IsFed, compose_standard-IsFed}
use coltrane.Composition.Roles.{roles, IsSeated, compose_standard-IsSeated}

abbrev reader : Agent
reader = record {
  slug = "reader";
  domain = none;
  primitives = interpret ∷ [];
  input_types = "text" ∷ [];
  required_inputs = [];
  output_types = "claims" ∷ [];
  skill_slugs = [];
  skills = [];
  allowed_tools = [];
}

abbrev writer : Agent
writer = record reader {
  slug = "writer";
  primitives = create ∷ [];
  input_types = "claims" ∷ [];
  output_types = "essay" ∷ [];
}

abbrev reading : Chair
reading = record {
  role = "read";
  agent_slug = "reader";
  skill_slug = "";
  human = false;
  allowed_tools = none;
  depends_on = [];
  input_contract = "text" ∷ [];
  output_contract = "claims" ∷ [];
  optional_inputs = [];
  optional_outputs = [];
  required_skills = [];
  supplies = [];
  prime = none;
  fork_from = none;
  fan_out = none;
}

abbrev writing : List String → Chair
writing depends_on = record reading {
  role = "write";
  agent_slug = "writer";
  depends_on = depends_on;
  input_contract = "claims" ∷ [];
  output_contract = "essay" ∷ [];
}

abbrev standard : List Chair → StandardDef
standard chairs = record {
  slug = "essay";
  domain = "prose";
  agents = reader ∷ writer ∷ [];
  phases =
      record { name = "one"; chairs = reading ∷ [] }
      ∷ record { name = "two"; chairs = chairs }
      ∷ [];
  input_types = "text" ∷ [];
}

abbrev essay : StandardDef
essay = standard (writing ("read" ∷ []) ∷ [])

essay_composed : compose_standard essay ≡ composed essay
unfolding compose_standard and_then each_passes includes any keys lookup keep all
essay_composed = refl

-- Two chairs of one phase that depend on each other
mutual_dependence :
    compose_standard (
      standard (
        record (writing ("read" ∷ "check" ∷ [])) { agent_slug = "writer" }
        ∷ record (writing ("write" ∷ "read" ∷ [])) { role = "check" }
        ∷ []))
    ≡ rejected (dependency_cycle "check" "write")
unfolding compose_standard and_then each_passes includes any keys lookup
mutual_dependence = refl

compose_standard-IsOrder_example :
    (order : List String) × IsOrder (adjacency (all_chairs essay.phases)) order
    × Within (keys (adjacency (all_chairs essay.phases))) order
compose_standard-IsOrder_example = compose_standard-IsOrder essay essay essay_composed

compose_standard-IsFed_example :
    All
      (λ ch. All (IsFed ("text" ∷ []) (all_chairs essay.phases) ch) ch.input_contract)
      (all_chairs essay.phases)
compose_standard-IsFed_example = compose_standard-IsFed essay essay essay_composed

compose_standard-IsSeated_example :
    Unique (roles (all_chairs essay.phases)) × All (IsSeated essay.agents) (all_chairs essay.phases)
compose_standard-IsSeated_example = compose_standard-IsSeated essay essay essay_composed

search_ends_example : search (("a", "b" ∷ []) ∷ ("b", "a" ∷ []) ∷ []) ≢ exhausted
search_ends_example = search_ends (("a", "b" ∷ []) ∷ ("b", "a" ∷ []) ∷ [])
