-- ===== src/Genome/Seats.antt =====
-- What src/placement_institutions.ts promises of an agent that it admits.
use coltrane.Base.{
  String, true, Option, none, some, List, [], ◌∷◌, ◌==◌, ◌≡◌, refl, Dict, includes, missing-none,
  Bool-cases, Option-cases, inl, inr, eq_iff,
}
use coltrane.Base.Json.{Json}
use coltrane.Genome.Placement.{
  Chair, Assignment, LoadedInstitution, PlacementRequest, admitted, seats_other, dispatch_standards,
  widened_standards, speaks, supplies_of, narrow, decide, resolve,
}

-- Institution `inst` seats the agent of the request in a chair of its role, where the agent claims
-- only what the chair grants, and hands over the chair's supplies.
pub record Seats (inst : LoadedInstitution) (request : PlacementRequest)
    (hydration : Option (Dict Json)) : Type 0 where
  pub chair : Chair
  pub seat : Assignment
  pub says : speaks inst request ≡ some (chair, seat)
  pub is_agent : seat.agent_slug ≡ request.agent_slug
  pub narrows :
      (s : String)
      → includes s (dispatch_standards seat.contract_caps) ≡ true
      → includes s (dispatch_standards chair.caps) ≡ true
  pub supplied : supplies_of chair.supplies ≡ admitted hydration

-- Why an agent is admitted: the first institution that speaks of the role seats it, or none speaks.
pub data IsAdmitted (request : PlacementRequest) (hydration : Option (Dict Json))
    : List LoadedInstitution → Type 0 where
  silence : none ≡ hydration → IsAdmitted request hydration []
  seated :
      {inst : LoadedInstitution} {more : List LoadedInstitution}
      → Seats inst request hydration
      → IsAdmitted request hydration (inst ∷ more)
  passed_over :
      {inst : LoadedInstitution} {more : List LoadedInstitution}
      → speaks inst request ≡ none
      → IsAdmitted request hydration more
      → IsAdmitted request hydration (inst ∷ more)

admitted-inj : {a b : Option (Dict Json)} → admitted a ≡ admitted b → a ≡ b
admitted-inj h = cc

narrow-admitted :
    (inst : LoadedInstitution) (supplies : Dict Json) (ws : List String)
    (hydration : Option (Dict Json))
    → narrow inst supplies ws ≡ admitted hydration
    → (ws ≡ []) × (supplies_of supplies ≡ admitted hydration)
narrow-admitted inst supplies [] hydration h = (refl, h)
narrow-admitted inst supplies (w ∷ ws) hydration h = cc

other-admitted {ℓ} :
    {B : Type ℓ} {i a : String} {h : Option (Dict Json)} → seats_other i a ≡ admitted h → B
other-admitted e = cc

decide-Seats :
    (inst : LoadedInstitution) (request : PlacementRequest) (chair : Chair) (seat : Assignment)
    (hydration : Option (Dict Json))
    → speaks inst request ≡ some (chair, seat)
    → decide inst request (chair, seat) ≡ admitted hydration
    → Seats inst request hydration
unfolding decide widened_standards
decide-Seats inst request chair seat hydration s h =
    elim (Bool-cases (seat.agent_slug == request.agent_slug)) [
      | inl b ↦
          let (none_, given) =
            narrow-admitted inst chair.supplies (widened_standards chair.caps seat.contract_caps)
              hydration (rw b at h) in
          record {
            chair = chair;
            seat = seat;
            says = s;
            is_agent = (eq_iff seat.agent_slug request.agent_slug).0 b;
            narrows = λ n.
                missing-none (dispatch_standards seat.contract_caps) (dispatch_standards chair.caps)
                  n none_;
            supplied = given;
          }
      | inr b ↦ other-admitted (rw b at h)
    ]

-- An agent that is admitted is one of whose role no institution speaks, or the first institution that
-- seats anyone in that role seats this agent, claims no dispatch beyond the chair's, and gives it the
-- supplies that it is hydrated with.
pub resolve-IsAdmitted :
    (insts : List LoadedInstitution) (request : PlacementRequest) (hydration : Option (Dict Json))
    → resolve insts request ≡ admitted hydration
    → IsAdmitted request hydration insts
unfolding resolve
resolve-IsAdmitted [] request hydration h = silence (admitted-inj h)
resolve-IsAdmitted (inst ∷ more) request hydration h = elim (Option-cases (speaks inst request)) [
  | inl s ↦ passed_over s (resolve-IsAdmitted more request hydration (rw s at h))
  | inr ((chair, seat), s) ↦ seated (decide-Seats inst request chair seat hydration s (rw s at h))
]

-- The first institution that speaks of the role decides: what the later ones say is not heard, a
-- contradiction included.
first_speaker_decides :
    (inst : LoadedInstitution) (more others : List LoadedInstitution) (request : PlacementRequest)
    (chair : Chair) (seat : Assignment)
    → speaks inst request ≡ some (chair, seat)
    → resolve (inst ∷ more) request ≡ resolve (inst ∷ others) request
unfolding resolve
first_speaker_decides inst more others request chair seat h = rw h
