-- ===== src/FanOut/Gathering.antt =====
-- `fanOutInstances` of src/runtime.ts: the records that a run splits a chair over.
use coltrane.Base.{
  String, Bool, List, [], ◌∷◌, ◌++◌, ◌==◌, Dict, lookup, or_else, any, if◌then◌else◌,
}
use coltrane.Base.Json.{Fields}
use coltrane.FanOut.Records.{Chair, OutputRecord}
use coltrane.FanOut.Sources.{Split}
use coltrane.FanOut.Expansion.{FanOutExpansion, expand_fan_out}

-- What a run holds when it comes to a chair: `produced`, `producedByRole`, and the records that the dispatch
-- named, by their types
pub record RunRecords : Type 0 where
  pub produced : List OutputRecord
  pub by_role : Dict (List OutputRecord)
  pub resolved : Dict (List OutputRecord)

abbrev of_roles : Dict (List OutputRecord) → List String → List OutputRecord
of_roles by_role [] = []
of_roles by_role (d ∷ roles) = or_else (lookup d by_role) [] ++ of_roles by_role roles

abbrev upstream : RunRecords → List String → List OutputRecord
upstream run [] = run.produced
upstream run (d ∷ roles) = of_roles run.by_role (d ∷ roles)

-- A record is pushed once; the same record has the same id.
abbrev push_new : List OutputRecord → List OutputRecord → List OutputRecord
push_new [] inputs = inputs
push_new (r ∷ records) inputs =
    push_new records (if any (λ q. q.id == r.id) inputs then inputs else inputs ++ r ∷ [])

abbrev pull_resolved :
    Dict (List OutputRecord) → List String → List OutputRecord → List OutputRecord
pull_resolved resolved [] inputs = inputs
pull_resolved resolved (t ∷ wanted) inputs =
    pull_resolved resolved wanted (push_new (or_else (lookup t resolved) []) inputs)

unfoldable pub whole_records : RunRecords → Chair → List OutputRecord
whole_records run chair =
    pull_resolved run.resolved chair.input_contract (upstream run chair.depends_on)

unfoldable pub fan_out_instances :
    (String → String)
    → (OutputRecord → String → Bool)
    → Fields
    → RunRecords
    → Chair
    → Split FanOutExpansion
unfolding whole_records expand_fan_out
fan_out_instances sha256_hex satisfies gig_input run chair =
    expand_fan_out sha256_hex satisfies chair (whole_records run chair) gig_input
