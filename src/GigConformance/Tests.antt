-- ===== src/GigConformance/Tests.antt =====
-- A trio of chairs, and the theorems on it.
use coltrane.Base.{String, ◌≡◌, false, some, List, [], ◌∷◌, ◌↔◌}
use coltrane.GigConformance.{Chair, OutputRecord, clean, check_gig_conformance}
use coltrane.GigConformance.Verdicts.{IsClean, check_gig_conformance_exact}

abbrev trio : List Chair
trio =
    record {
      role = "scout";
      output_contract = "Signal" ∷ [];
      optional_outputs = [];
      depends_on = [];
    }
    ∷ record {
      role = "judge";
      output_contract = "Verdict" ∷ [];
      optional_outputs = [];
      depends_on = "scout" ∷ [];
    }
    ∷ []

abbrev sealed_record : String → String → String → List String → OutputRecord
sealed_record role core sha inputs = record {
  id = sha;
  core_type = core;
  domain_type = core;
  gig_id = "g1";
  from_role = some role;
  content_sha = sha;
  input_shas = inputs;
  is_reused = false;
}

abbrev records : List OutputRecord
records =
    sealed_record "scout" "Signal" "s1" [] ∷ sealed_record "judge" "Verdict" "v1" ("s1" ∷ []) ∷ []

check_gig_conformance_exact_example :
    (check_gig_conformance trio records [] "complete" "g1" ≡ clean)
    ↔ IsClean trio records [] "complete" "g1"
check_gig_conformance_exact_example = check_gig_conformance_exact trio records [] "complete" "g1"
