-- ===== src/Genome/Placement.antt =====
-- src/placement_institutions.ts: what the institutions of a genome say of an agent in a chair. The
-- genome's institutions are a list in the order of the `Map`, and a promise that resolves at once is
-- its value. A refusal keeps the names that its sentence quotes.
use coltrane.Base.{
  String, Bool, false, not, Option, none, some, List, [], ◌∷◌, ◌++◌, ◌==◌, Dict, lookup, find,
  missing, if◌then◌else◌,
}
use coltrane.Base.Json.{Json, str, arr, obj, Items, nil, cons, entries}

pub record Chair : Type 0 where
  pub id : String
  pub role : String
  pub caps : List Json
  pub supplies : Dict Json

pub record Assignment : Type 0 where
  pub chair_id : String
  pub agent_slug : String
  pub contract_caps : List Json

-- Sections that a document leaves out are empty.
pub record LoadedInstitution : Type 0 where
  pub slug : String
  pub chairs : List Chair
  pub assignments : List Assignment

pub record PlacementRequest : Type 0 where
  pub role : String
  pub agent_slug : String

-- Admission with its hydration, a seat that is another's, or the standards that widen the chair.
pub data PlacementDecision : Type 0 where
  admitted : Option (Dict Json) → PlacementDecision
  seats_other : String → String → PlacementDecision
  widens : String → List String → PlacementDecision

-- The texts of an array
abbrev pub texts : Items → List String
texts nil = []
texts (cons (str s) vs) = s ∷ texts vs
texts (cons v vs) = texts vs

abbrev standards_of : Option Json → List String
standards_of (some (arr vs)) = texts vs
standards_of _ = []

abbrev grants_dispatch : Option Json → Bool
grants_dispatch (some (str grant)) = grant == "dispatch"
grants_dispatch _ = false

-- What one cap names: nothing unless it is an object that grants dispatch.
abbrev cap_standards : Json → List String
cap_standards (obj fs) =
    let dict = entries fs in
    if grants_dispatch (lookup "grant" dict) then standards_of (lookup "standards" dict) else []
cap_standards _ = []

unfoldable pub dispatch_standards : List Json → List String
dispatch_standards [] = []
dispatch_standards (c ∷ caps) = cap_standards c ++ dispatch_standards caps

unfoldable pub widened_standards : List Json → List Json → List String
unfolding dispatch_standards
widened_standards chair_caps seat_caps =
    missing (dispatch_standards seat_caps) (dispatch_standards chair_caps)

-- The chair of a role and who is seated in it. `none` is silence.
abbrev seat_in : Option Chair → List Assignment → Option (Chair × Assignment)
seat_in none seats = none
seat_in (some chair) seats = elim (find (λ s. s.chair_id == chair.id) seats) [
  | none ↦ none
  | some seat ↦ some (chair, seat)
]

unfoldable pub speaks : LoadedInstitution → PlacementRequest → Option (Chair × Assignment)
speaks inst request = seat_in (find (λ c. c.role == request.role) inst.chairs) inst.assignments

abbrev pub supplies_of : Dict Json → PlacementDecision
supplies_of [] = admitted none
supplies_of (x ∷ xs) = admitted (some (x ∷ xs))

abbrev pub narrow : LoadedInstitution → Dict Json → List String → PlacementDecision
narrow inst supplies [] = supplies_of supplies
narrow inst supplies (w ∷ ws) = widens inst.slug (w ∷ ws)

-- What an institution that speaks decides.
unfoldable pub decide :
    LoadedInstitution → PlacementRequest → Chair × Assignment → PlacementDecision
unfolding widened_standards
decide inst request (chair, seat) =
    if not (seat.agent_slug == request.agent_slug)
    then seats_other inst.slug seat.agent_slug
    else narrow inst chair.supplies (widened_standards chair.caps seat.contract_caps)

abbrev spoken :
    LoadedInstitution
    → PlacementRequest
    → Option (Chair × Assignment)
    → PlacementDecision
    → PlacementDecision
spoken inst request none rest = rest
spoken inst request (some said) rest = decide inst request said

unfoldable pub resolve : List LoadedInstitution → PlacementRequest → PlacementDecision
unfolding speaks decide
resolve [] request = admitted none
resolve (inst ∷ more) request = spoken inst request (speaks inst request) (resolve more request)
