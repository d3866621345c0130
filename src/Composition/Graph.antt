-- ===== src/Composition/Graph.antt =====
-- The graph of `depends_on` in src/composition.ts: the check of each edge, and the search for a cycle. The
-- colors of the search are kept as the list of grey roles and the list of black roles, newest first.
use coltrane.Base.{
  ℕ, zero, suc, String, Bool, true, false, not, Option, none, some, List, [], ◌∷◌, any, includes,
  Dict, lookup, keys, or_else, ltb, length, ◌==◌, if◌then◌else◌,
}
use coltrane.Composition.Syntax.{
  Chair, PhaseDef, Check, unless, and_then, each_passes, depends_on_itself, unknown_dependency,
  forward_dependency, dependency_cycle, no_fuel,
}

unfoldable pub seats_role : String → List Chair → Bool
seats_role role chairs = any (λ ch. ch.role == role) chairs

-- `rolePhaseIndex.get(role)`, for phases that begin at index `i`
unfoldable pub phase_index : ℕ → List PhaseDef → String → Option ℕ
unfolding seats_role
phase_index i [] role = none
phase_index i (p ∷ phases) role = elim (phase_index (suc i) phases role) [
  | some j ↦ some j
  | none ↦ if seats_role role p.chairs then some i else none
]

abbrev edge_to : ℕ → String → String → Option ℕ → Check
edge_to i role dep none = some (unknown_dependency role dep)
edge_to i role dep (some j) = unless (not (ltb i j)) (forward_dependency role dep)

unfoldable pub edge_check : List PhaseDef → ℕ → String → String → Check
unfolding phase_index
edge_check phases i role dep =
    and_then (unless (not (dep == role)) (depends_on_itself role))
      (edge_to i role dep (phase_index 0 phases dep))

-- The edges of the phases from index `i` on
unfoldable pub edges_check : List PhaseDef → ℕ → List PhaseDef → Check
unfolding edge_check
edges_check phases i [] = none
edges_check phases i (p ∷ more) =
    and_then (each_passes (λ ch. each_passes (edge_check phases i ch.role) ch.depends_on) p.chairs)
      (edges_check phases (suc i) more)

-- `adj`
unfoldable pub adjacency : List Chair → Dict (List String)
adjacency [] = []
adjacency (ch ∷ chairs) = (ch.role, ch.depends_on) ∷ adjacency chairs

-- `adj.get(role) ?? []`
unfoldable pub dependencies : Dict (List String) → String → List String
dependencies adj role = or_else (lookup role adj) []

pub data Visit : Type 0 where
  visited : List String → Visit
  cyclic : String → String → Visit
  exhausted : Visit

unfoldable pub and_visit : Visit → (List String → Visit) → Visit
and_visit (visited black) next = next black
and_visit (cyclic role dep) next = cyclic role dep
and_visit exhausted next = exhausted

-- The loop over the dependencies of `role`, where `visit` is the search from a white one
unfoldable pub visit_each :
    (List String → String → Visit) → String → List String → List String → List String → Visit
unfolding and_visit
visit_each visit role grey black [] = visited black
visit_each visit role grey black (dep ∷ deps) = elim (includes dep grey) [
  | true ↦ cyclic role dep
  | false ↦ elim (includes dep black) [
    | true ↦ visit_each visit role grey black deps
    | false ↦ and_visit (visit black dep) (λ black'. visit_each visit role grey black' deps)
  ]
]

module _ (adj : Dict (List String)) where
  unfoldable pub dfs : ℕ → List String → List String → String → Visit
  unfolding visit_each and_visit dependencies
  dfs zero grey black role = exhausted
  dfs (suc fuel) grey black role =
      and_visit
        (visit_each (λ seen dep. dfs fuel (role ∷ grey) seen dep) role (role ∷ grey) black
          (dependencies adj role))
        (λ black'. visited (role ∷ black'))

  -- `for (const role of adj.keys())`: nothing is grey between two searches.
  unfoldable pub search_all : ℕ → List String → List String → Visit
  unfolding dfs and_visit
  search_all fuel black [] = visited black
  search_all fuel black (role ∷ roles) = elim (includes role black) [
    | true ↦ search_all fuel black roles
    | false ↦ and_visit (dfs fuel [] black role) (λ black'. search_all fuel black' roles)
  ]

  unfoldable pub search : Visit
  unfolding search_all
  search = search_all (suc (length (keys adj))) [] (keys adj)

abbrev pub cycle_check : Visit → Check
cycle_check (visited black) = none
cycle_check (cyclic role dep) = some (dependency_cycle role dep)
cycle_check exhausted = some no_fuel
