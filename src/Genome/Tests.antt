-- ===== src/Genome/Tests.antt =====
-- Small documents, and the theorems on them.
use coltrane.Base.{String, ◌≡◌, refl, none, some, List, [], ◌∷◌, Dict, find, keep}
use coltrane.Base.Json.{Json, str}
use coltrane.Genome.Versions.{DomainTypeDef, active}
use coltrane.Genome.Lineage.{LineageRecordRef, Institution}
use coltrane.Genome.Adoption.{written, adopt_all, grounding, first_adoption_stays}
use coltrane.Genome.Placement.{
  Chair, Assignment, LoadedInstitution, PlacementRequest, resolve, speaks, decide,
  widened_standards, dispatch_standards,
}
use coltrane.Genome.Seats.{IsAdmitted, resolve-IsAdmitted}

abbrev note : List String → Dict Json → DomainTypeDef
note required properties = record {
  slug = "note";
  version = 1;
  extends = "Brief";
  domain = "music";
  status = active;
  properties = properties;
  required_fields = required;
}

abbrev by_approver : String → LineageRecordRef
by_approver name = record {
  record_ref = "r1";
  approved_by = name;
  question = none;
  sealed_at = none;
}

abbrev grounded : Institution String
grounded = record { lineage = some (by_approver "ann" ∷ []); rest = "quartet" }

first_adoption_stays_example :
    grounding "r1" (written (adopt_all grounded (by_approver "bob" ∷ [])))
    ≡ some (by_approver "ann")
unfolding find
first_adoption_stays_example =
    first_adoption_stays grounded (by_approver "bob" ∷ []) "r1" (by_approver "ann") refl

abbrev drums : Chair
drums = record { id = "c1"; role = "drums"; caps = []; supplies = ("tempo", str "fast") ∷ [] }

abbrev elvin : Assignment
elvin = record { chair_id = "c1"; agent_slug = "elvin"; contract_caps = [] }

abbrev quartet : LoadedInstitution
quartet = record { slug = "quartet"; chairs = drums ∷ []; assignments = elvin ∷ [] }

abbrev seat_elvin : PlacementRequest
seat_elvin = record { role = "drums"; agent_slug = "elvin" }

resolve-IsAdmitted_example :
    IsAdmitted seat_elvin (some (("tempo", str "fast") ∷ [])) (quartet ∷ [])
unfolding resolve speaks decide find widened_standards dispatch_standards keep
resolve-IsAdmitted_example =
    resolve-IsAdmitted (quartet ∷ []) seat_elvin (some (("tempo", str "fast") ∷ [])) refl
