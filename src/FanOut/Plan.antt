-- ===== src/FanOut/Plan.antt =====
-- src/seat_plan.ts: who would play, and how much each one would be handed. The length of a text is
-- counted in characters; what a refusal says is the refusal itself.
use Prim.Native.String.{count}
use coltrane.Base.{
  ℕ, suc, ◌+◌, String, Bool, not, Option, none, some, List, [], ◌∷◌, ◌++◌, map, keep, any, length,
  includes, Dict, lookup, put, glue, or_else, ltb, is_some, if◌then◌else◌, ◌==◌,
}
use coltrane.Base.Json.{Json, Fields, obj, entries}
use coltrane.Canonical.{canon_json}
use coltrane.FanOut.Records.{FanOut, Chair, OutputRecord}
use coltrane.FanOut.Sources.{FanOutRefused, Split, done, refused}
use coltrane.FanOut.Slices.{FanOutInstance}
use coltrane.FanOut.Expansion.{FanOutExpansion, expand_fan_out}

unfoldable pub bytes_of : Json → ℕ
unfolding canon_json
bytes_of v = count (canon_json v)

pub record FieldSize : Type 0 where
  pub path : String
  pub bytes : ℕ

pub record PlannedInput : Type 0 where
  pub kind : String
  pub source : String
  pub bytes : ℕ
  pub largest_field : Option FieldSize

pub record PlannedSeat : Type 0 where
  pub role : String
  pub input_bytes : ℕ
  pub inputs : List PlannedInput

pub record PlannedChair : Type 0 where
  pub role : String
  pub agent_slug : Option String
  pub skill_slug : Option String
  pub is_template : Bool
  pub seat_count : ℕ
  pub seats : Option (List PlannedSeat)
  pub refusal : Option FanOutRefused

pub record PlannedPhase : Type 0 where
  pub name : String
  pub chairs : List PlannedChair

pub record SeatPlan : Type 0 where
  pub phases : List PlannedPhase
  pub seat_count : ℕ
  pub incomplete : Bool

pub record PhaseDef : Type 0 where
  pub name : String
  pub chairs : List Chair

-- The biggest field seen so far, with its value
abbrev Best : Type 0
Best = Option (FieldSize × Json)

abbrev bigger : Best → String → Json → ℕ → Best
bigger none k v b = some (record { path = k; bytes = b }, v)
bigger (some (best, w)) k v b =
    if ltb best.bytes b then some (record { path = k; bytes = b }, v) else some (best, w)

-- The loop over the entries
unfoldable pub biggest : Best → Dict Json → Best
unfolding bytes_of
biggest best [] = best
biggest best ((k, v) ∷ m) = biggest (bigger best k v (bytes_of v)) m

abbrev below_field : FieldSize → Option FieldSize → FieldSize
below_field best none = best
below_field best (some deeper) = record {
  path = glue best.path (glue "." deeper.path);
  bytes = deeper.bytes;
}

abbrev top_of : Best → Option FieldSize
top_of none = none
top_of (some (best, v)) = some best

-- `largestField`, from its depth
unfoldable pub largest_field : ℕ → Json → Option FieldSize
unfolding biggest
largest_field (suc (suc depth)) (obj fs) = elim (biggest none (entries fs)) [
  | none ↦ none
  | some (best, v) ↦ some (below_field best (largest_field (suc depth) v))
]
largest_field depth (obj fs) = top_of (biggest none (entries fs))
largest_field depth _ = none

abbrev max_field_depth : ℕ
max_field_depth = 3

unfoldable pub planned_input : String → String → Json → PlannedInput
unfolding bytes_of largest_field
planned_input kind source v = record {
  kind = kind;
  source = source;
  bytes = bytes_of v;
  largest_field = largest_field max_field_depth v;
}

unfoldable pub payload_inputs : Dict Json → List PlannedInput
unfolding planned_input
payload_inputs [] = []
payload_inputs ((kind, v) ∷ m) = planned_input kind "gig_input" v ∷ payload_inputs m

unfoldable pub total_bytes : List PlannedInput → ℕ
total_bytes [] = 0
total_bytes (i ∷ is) = i.bytes + total_bytes is

unfoldable pub seat_of : String → List OutputRecord → Dict Json → PlannedSeat
unfolding payload_inputs total_bytes planned_input
seat_of role records payload =
    let inputs =
      map (λ r. planned_input r.domain_type r.id (obj r.content)) records
      ++ payload_inputs payload in
    record { role = role; input_bytes = total_bytes inputs; inputs = inputs }

-- `if (o[k] !== undefined) out[k] = o[k]`
abbrev pick_one : String → Option Json → Dict Json → Dict Json
pick_one k none out = out
pick_one k (some v) out = put k v out

unfoldable pub pick_from : Fields → List String → Dict Json → Dict Json
pick_from o [] out = out
pick_from o (k ∷ ks) out = pick_from o ks (pick_one k (lookup k (entries o)) out)

unfoldable pub pick : Fields → List String → Dict Json
unfolding pick_from
pick o ks = pick_from o ks []

-- `{ ...m, ...n }`
unfoldable pub merged : Dict Json → Dict Json → Dict Json
merged m [] = m
merged m ((k, v) ∷ n) = merged (put k v m) n

-- `ch.input_contract.some((t) => satisfies(r, t))`
abbrev takes_in : (OutputRecord → String → Bool) → Chair → OutputRecord → Bool
takes_in satisfies chair r = any (λ t. satisfies r t) chair.input_contract

-- `s ? { slug: s } : {}`
abbrev given : Option String → Option String
given none = none
given (some s) = if s == "" then none else some s

abbrev unplanned : Chair → PlannedChair
unplanned chair = record {
  role = chair.role;
  agent_slug = given chair.agent_slug;
  skill_slug = given chair.skill_slug;
  is_template = is_some chair.fan_out;
  seat_count = 0;
  seats = none;
  refusal = none;
}

abbrev with_seats : Chair → List PlannedSeat → PlannedChair
with_seats chair seats = record (unplanned chair) { seat_count = length seats; seats = some seats }

module _ (sha256_hex : String → String) (satisfies : OutputRecord → String → Bool)
    (gig_input : Fields) (records : List OutputRecord) where
  -- What one instance would receive
  unfoldable pub instance_seat : Chair → FanOutInstance → PlannedSeat
  unfolding seat_of pick merged
  instance_seat chair i =
      seat_of i.chair.role
        (map (λ r. or_else (lookup r.id i.records) r)
          (keep (takes_in satisfies chair) (keep (λ r. not (includes r.id i.drop)) records)))
        (merged (pick gig_input chair.input_contract) i.gig_input)

  unfoldable pub plan_split : Chair → Split FanOutExpansion → PlannedChair
  unfolding instance_seat
  plan_split chair (done e) = with_seats chair (map (instance_seat chair) e.instances)
  plan_split chair (refused why) = record (unplanned chair) { refusal = some why }

  unfoldable pub plan_by : Option FanOut → Chair → PlannedChair
  unfolding plan_split seat_of pick
  plan_by none chair = with_seats chair (
      seat_of chair.role (keep (takes_in satisfies chair) records)
        (pick gig_input chair.input_contract)
      ∷ [])
  plan_by (some fan) chair =
      plan_split chair (expand_fan_out sha256_hex satisfies chair records gig_input)

  -- `planChair`
  unfoldable pub plan_chair : Chair → PlannedChair
  unfolding plan_by
  plan_chair chair = plan_by chair.fan_out chair

  unfoldable pub plan_phase : PhaseDef → PlannedPhase
  unfolding plan_chair
  plan_phase p = record { name = p.name; chairs = map plan_chair p.chairs }

unfoldable pub chairs_seats : List PlannedChair → ℕ
chairs_seats [] = 0
chairs_seats (c ∷ cs) = c.seat_count + chairs_seats cs

unfoldable pub phases_seats : List PlannedPhase → ℕ
unfolding chairs_seats
phases_seats [] = 0
phases_seats (p ∷ ps) = chairs_seats p.chairs + phases_seats ps

unfoldable pub lacks_seats : PlannedPhase → Bool
lacks_seats p = any (λ c. not (is_some c.seats)) p.chairs

unfoldable pub plan_seats :
    (String → String)
    → (OutputRecord → String → Bool)
    → Fields
    → List OutputRecord
    → List PhaseDef
    → SeatPlan
unfolding plan_phase phases_seats lacks_seats
plan_seats sha256_hex satisfies gig_input records standard =
    let phases = map (plan_phase sha256_hex satisfies gig_input records) standard in
    record {
      phases = phases;
      seat_count = phases_seats phases;
      incomplete = any lacks_seats phases;
    }
