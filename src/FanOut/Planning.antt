-- ===== src/FanOut/Planning.antt =====
-- The seat plan of src/seat_plan.ts against the seats that the run takes.
use coltrane.Base.{
  All, subst, if◌then◌else◌, ℕ, ◌+◌, String, ◌≡◌, refl, sym, ap, ◌∙◌, Bool, true, false, not, ◌||◌,
  Option, none, some, List, [], ◌∷◌, map, any, length, is_some,
}
use coltrane.Base.Json.{Fields}
use coltrane.FanOut.Records.{Over, Join, FanOut, Chair, OutputRecord}
use coltrane.FanOut.Sources.{Split, done, refused, then_split, split_each, some_sources, one_source}
use coltrane.FanOut.Slices.{FanOutInstance}
use coltrane.FanOut.Expansion.{
  satisfying, over_sources, join_set, split_chair, expand_by, FanOutExpansion, expand_fan_out,
}
use coltrane.FanOut.Gathering.{RunRecords, whole_records, fan_out_instances}
use coltrane.FanOut.Seats.{length-map}
use coltrane.FanOut.Plan.{
  PlannedSeat, PlannedChair, PlannedPhase, PhaseDef, seat_of, instance_seat, plan_split, plan_by,
  plan_chair, plan_phase, chairs_seats, phases_seats, lacks_seats, plan_seats,
}

-- The roles that a run seats for a chair, or why it refuses
abbrev seated : Split FanOutExpansion → Split (List String)
seated (done e) = done (map (λ i. i.chair.role) e.instances)
seated (refused why) = refused why

abbrev seats_by : Option FanOut → Chair → Split FanOutExpansion → Split (List String)
seats_by none chair run = done (chair.role ∷ [])
seats_by (some fan) chair run = seated run

abbrev pub number_of : Split (List String) → ℕ
number_of (done roles) = length roles
number_of (refused why) = 0

abbrev pub is_refused : Split (List String) → Bool
is_refused (done roles) = false
is_refused (refused why) = true

-- A planned chair lists the seats of the run, and counts them, or states the refusal of the run.
abbrev pub Agrees : Split (List String) → PlannedChair → Type 0
Agrees (done roles) p =
    ((seats : List PlannedSeat) × (p.seats ≡ some seats) × (map (λ s. s.role) seats ≡ roles))
    × (p.seat_count ≡ length roles)
    × (p.refusal ≡ none)
Agrees (refused why) p = (p.seats ≡ none) × (p.seat_count ≡ 0) × (p.refusal ≡ some why)

Agrees-number :
    (run : Split (List String)) (p : PlannedChair) → Agrees run p → p.seat_count ≡ number_of run
Agrees-number (done roles) p h = h.1
Agrees-number (refused why) p h = h.1

Agrees-refused :
    (run : Split (List String)) (p : PlannedChair)
    → Agrees run p
    → not (is_some p.seats) ≡ is_refused run
Agrees-refused (done roles) p h = ap (λ o. not (is_some o)) h.0.1
Agrees-refused (refused why) p h = ap (λ o. not (is_some o)) h.0

module _ (sha256_hex : String → String) (satisfies : OutputRecord → String → Bool)
    (gig_input : Fields) where
  -- A test finds the same records of a type in two lists.
  abbrev SameOf : List OutputRecord → List OutputRecord → String → Type 0
  SameOf records whole kind = satisfying satisfies kind records ≡ satisfying satisfies kind whole

  -- Two lists hold the same records of every type that a chair is split over.
  abbrev pub SameSources : List OutputRecord → List OutputRecord → Option FanOut → Type 0
  SameSources records whole none = Unit
  SameSources records whole (some fan) =
      SameOf records whole fan.over.kind × All (λ j. SameOf records whole j.kind) fan.join

  over_sources-same :
      (records whole : List OutputRecord) (over : Over)
      → SameOf records whole over.kind
      → over_sources satisfies over records gig_input ≡ over_sources satisfies over whole gig_input
  unfolding over_sources
  over_sources-same records whole over h =
      ap
        (λ rs.
          if over.across_sources
          then some_sources over.kind rs
          else then_split (one_source over.kind gig_input rs) (λ s. done (s ∷ [])))
        h

  join_sets-same :
      (records whole : List OutputRecord) (joins : List Join)
      → All (λ j. SameOf records whole j.kind) joins
      → split_each (join_set satisfies records gig_input) joins
        ≡ split_each (join_set satisfies whole gig_input) joins
  unfolding split_each join_set
  join_sets-same records whole [] h = refl
  join_sets-same records whole (j ∷ joins) (h, hs) =
      rw (h, join_sets-same records whole joins hs) refl

  -- An expansion looks only at the records of the types that it splits.
  expand_by-same :
      (o : Option FanOut) (chair : Chair) (records whole : List OutputRecord)
      → SameSources records whole o
      → expand_by sha256_hex satisfies o chair records gig_input
        ≡ expand_by sha256_hex satisfies o chair whole gig_input
  unfolding expand_by split_chair
  expand_by-same none chair records whole h = refl
  expand_by-same (some fan) chair records whole (h, hs) =
      rw (over_sources-same records whole fan.over h, join_sets-same records whole fan.join hs) refl

  module _ (records : List OutputRecord) (run : Chair → RunRecords) where
    -- The roles that the run seats for a chair, with what it holds when it comes to it
    abbrev pub run_seats : Chair → Split (List String)
    run_seats chair =
        seats_by chair.fan_out chair
          (fan_out_instances sha256_hex satisfies gig_input (run chair) chair)

    -- Of the types that a chair is split over, the plan was given the records that the run holds.
    abbrev pub IsForeseen : Chair → Type 0
    IsForeseen chair = SameSources records (whole_records (run chair) chair) chair.fan_out

    instance_seats-roles :
        (chair : Chair) (is : List FanOutInstance)
        → map (λ s. s.role) (map (instance_seat sha256_hex satisfies gig_input records chair) is)
          ≡ map (λ i. i.chair.role) is
    unfolding instance_seat seat_of
    instance_seats-roles chair [] = refl
    instance_seats-roles chair (i ∷ is) = ap (λ t. i.chair.role ∷ t) (instance_seats-roles chair is)

    plan_split-Agrees :
        (chair : Chair) (run : Split FanOutExpansion)
        → Agrees (seated run) (plan_split sha256_hex satisfies gig_input records chair run)
    unfolding plan_split
    plan_split-Agrees chair (done e) = (
      (_, refl, instance_seats-roles chair e.instances),
      length-map _ e.instances ∙ sym (length-map (λ i. i.chair.role) e.instances),
      refl,
    )
    plan_split-Agrees chair (refused why) = (refl, refl, refl)

    plan_by-Agrees :
        (o : Option FanOut) (chair : Chair)
        → Agrees
            (seats_by o chair (expand_fan_out sha256_hex satisfies chair records gig_input))
            (plan_by sha256_hex satisfies gig_input records o chair)
    unfolding plan_by seat_of
    plan_by-Agrees none chair = ((_, refl, refl), refl, refl)
    plan_by-Agrees (some fan) chair = plan_split-Agrees chair _

    plan_chair-Agrees :
        (chair : Chair)
        → IsForeseen chair
        → Agrees (run_seats chair) (plan_chair sha256_hex satisfies gig_input records chair)
    unfolding plan_chair fan_out_instances expand_fan_out
    plan_chair-Agrees chair foreseen =
        subst
          (λ x.
            Agrees (seats_by chair.fan_out chair x)
              (plan_by sha256_hex satisfies gig_input records chair.fan_out chair))
          (expand_by-same chair.fan_out chair records (whole_records (run chair) chair) foreseen)
          (plan_by-Agrees chair.fan_out chair)

    -- The seats of the chairs of a phase at the run, those of a refused chair counting zero
    pub number_of_chairs : List Chair → ℕ
    number_of_chairs [] = 0
    number_of_chairs (c ∷ cs) = number_of (run_seats c) + number_of_chairs cs

    pub number_of_seats : List PhaseDef → ℕ
    number_of_seats [] = 0
    number_of_seats (p ∷ ps) = number_of_chairs p.chairs + number_of_seats ps

    pub AgreeChairs : List Chair → List PlannedChair → Type 0
    AgreeChairs [] [] = Unit
    AgreeChairs (c ∷ cs) (p ∷ ps) = Agrees (run_seats c) p × AgreeChairs cs ps
    AgreeChairs _ _ = ⊥

    pub AgreePhases : List PhaseDef → List PlannedPhase → Type 0
    AgreePhases [] [] = Unit
    AgreePhases (d ∷ ds) (p ∷ ps) =
        (p.name ≡ d.name) × AgreeChairs d.chairs p.chairs × AgreePhases ds ps
    AgreePhases _ _ = ⊥

    chairs-agree :
        (cs : List Chair)
        → All IsForeseen cs
        → AgreeChairs cs (map (plan_chair sha256_hex satisfies gig_input records) cs)
          × (chairs_seats (map (plan_chair sha256_hex satisfies gig_input records) cs)
              ≡ number_of_chairs cs)
          × (any
                (λ c. not (is_some c.seats))
                (map (plan_chair sha256_hex satisfies gig_input records) cs)
              ≡ any (λ c. is_refused (run_seats c)) cs)
    unfolding AgreeChairs number_of_chairs chairs_seats any
    chairs-agree [] h = (tt, refl, refl)
    chairs-agree (c ∷ cs) (h, hs) =
        let one = plan_chair-Agrees c h in
        let rest = chairs-agree cs hs in
        (
          (one, rest.0),
          (λ n. Agrees-number (run_seats c) _ one n + rest.1 n),
          (λ n. Agrees-refused (run_seats c) _ one n || rest.2 n),
        )

    -- When the plan is given, of every type that a chair is split over, the records that the run holds as it
    -- comes to the chair (what was produced upstream and what the dispatch named), the plan and the run agree:
    -- each chair without a fan-out has its one seat, each chair whose split succeeds at the run lists the
    -- seats of the run in order, each chair whose split the run refuses has no seats and states the refusal;
    -- the plan's count is that of all the seats of the run, and the plan is incomplete exactly when the run
    -- refuses some chair.
    pub plan_seats-run :
        (standard : List PhaseDef)
        → All (λ p. All IsForeseen p.chairs) standard
        → let plan = plan_seats sha256_hex satisfies gig_input records standard in
          AgreePhases standard plan.phases
          × (plan.seat_count ≡ number_of_seats standard)
          × (plan.incomplete ≡ any (λ p. any (λ c. is_refused (run_seats c)) p.chairs) standard)
    unfolding plan_seats plan_phase AgreePhases number_of_seats phases_seats any lacks_seats
    plan_seats-run [] h = (tt, refl, refl)
    plan_seats-run (p ∷ ps) (h, hs) =
        let one = chairs-agree p.chairs h in
        let rest = plan_seats-run ps hs in
        ((refl, one.0, rest.0), (λ n. one.1 n + rest.1 n), (λ n. one.2 n || rest.2 n))
