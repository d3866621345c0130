-- ===== src/ReservePool/Yielding.antt =====
-- What the state `yielding` of a gig's budget tells of its chairs in src/runtime.ts.
use coltrane.Base.{
  ℕ, String, Bool, true, false, ◌≡◌, refl, ◌∙◌, some, List, [], ◌∷◌, ◌==◌, eq_iff, eq_refl, ap, sym,
  Option, Dict, lookup, put, any, arith, if◌then◌else◌, Bool-cases, inl, inr, cons-nil, true-false,
}
use coltrane.ReservePool.{
  settle, Level, AgentState, active, yielding, depleted, awaiting_grade, settled, ReserveDraw, Seat,
  PoolState, opened, prepare_chair, granted, denied, leave, landed, failed, PoolOp, prepares, draws,
  denied_draw, lands, fails, to_seat, after_landing, pool_step, run_pool,
}

abbrev pub is_yielding : AgentState → Bool
is_yielding yielding = true
is_yielding state = false

-- The gig is yielding exactly when a chair that runs has drawn from its reserve.
abbrev pub TellsDraws : PoolState → Type 0
TellsDraws s = is_yielding s.agent_state ≡ any (λ e. e.1.drew) s.seats

-- Two chairs that run, the second of them prepared last
module _ (role other : String) (ne : (role == other) ≡ false) where
  abbrev two : Seat → Seat → Dict Seat
  two mine theirs = (other, theirs) ∷ (role, mine) ∷ []

  other_first : (other == role) ≡ false
  other_first = ground (arith, ne, eq_iff other role, eq_iff role other)

  lookup-two : (mine theirs : Seat) → lookup role (two mine theirs) ≡ some mine
  unfolding lookup
  lookup-two mine theirs = rw (other_first, eq_refl role) refl

  put-two : (new mine theirs : Seat) → put role new (two mine theirs) ≡ two new theirs
  unfolding put
  put-two new mine theirs = rw (other_first, eq_refl role) refl

  leave-two : (mine theirs : Seat) → leave role (two mine theirs) ≡ (other, theirs) ∷ []
  unfolding leave
  leave-two mine theirs = rw (other_first, eq_refl role) refl

  draws-two :
      (mine theirs : Seat) (s : PoolState)
      → s.seats ≡ two mine theirs
      → (pool_step (draws role) s).seats ≡ two (settle true mine) theirs
  unfolding pool_step granted
  draws-two mine theirs s h =
      ap (λ o. (to_seat (granted role) o s).seats) (ap (lookup role) h ∙ lookup-two mine theirs)
      ∙ (ap (put role (settle true mine)) h ∙ put-two (settle true mine) mine theirs)

  draws_other :
      (mine theirs : Seat) (s : PoolState)
      → s.seats ≡ two mine theirs
      → let after = pool_step (draws other) s in
        (after.seats ≡ two mine (settle true theirs)) × (after.agent_state ≡ yielding)
  unfolding pool_step granted lookup put
  draws_other mine theirs s h =
      let found : lookup other s.seats ≡ some theirs =
        ap (lookup other) h ∙ rw (eq_refl other) refl in
      (
        ap (λ o. (to_seat (granted other) o s).seats) found
            ∙ (ap (put other (settle true theirs)) h ∙ rw (eq_refl other) refl),
        ap (λ o. (to_seat (granted other) o s).agent_state) found,
      )

  lands-two :
      (mine theirs : Seat) (s : PoolState)
      → s.seats ≡ two mine theirs
      → s.agent_state ≡ yielding
      → mine.drew ≡ true
      → let after = pool_step (lands role) s in
        (after.seats ≡ (other, theirs) ∷ []) × (after.agent_state ≡ active)
  unfolding pool_step landed
  lands-two mine theirs s h y drew =
      let found = ap (lookup role) h ∙ lookup-two mine theirs in
      (
        ap (λ o. (to_seat (landed role) o s).seats) found
            ∙ (ap (leave role) h ∙ leave-two mine theirs),
        ap (λ o. (to_seat (landed role) o s).agent_state) found
            ∙ (ap (after_landing mine.drew) y ∙ ap (λ d. after_landing d yielding) drew),
      )

  -- Two chairs of a batch draw. When the first lands, the gig is active, though the other is still drawing.
  pub landing_hides_draw :
      (pool : ℕ) (mine theirs : Option ℕ)
      → let after =
          run_pool
            (prepares role mine
              ∷ prepares other theirs
              ∷ draws role
              ∷ draws other
              ∷ lands role
              ∷ [])
            (opened pool) in
        (after.agent_state ≡ active) × ¬ TellsDraws after
  unfolding run_pool pool_step prepare_chair any
  landing_hides_draw pool mine theirs =
      let ready =
        pool_step (prepares other theirs) (pool_step (prepares role mine) (opened pool)) in
      let s = pool_step (draws role) ready in
      let (both, drawing) = draws_other _ _ s (draws-two _ _ ready refl) in
      let (seats, state) = lands-two _ _ (pool_step (draws other) s) both drawing refl in
      (
        state,
        λ told.
            true-false (sym (sym (ap is_yielding state) ∙ told ∙ ap (any (λ e. e.1.drew)) seats)),
      )

-- A chair is prepared only when none runs.
abbrev pub IsNext : PoolOp → Dict Seat → Type 0
IsNext (prepares role declared) seats = seats ≡ []
IsNext op seats = Unit

unfoldable pub IsSequential : List PoolOp → PoolState → Type 0
unfolding pool_step
IsSequential [] s = Unit
IsSequential (op ∷ ops) s = IsNext op s.seats × IsSequential ops (pool_step op s)

abbrev IsAlone : AgentState → Dict Seat → Type 0
IsAlone state [] = is_yielding state ≡ false
IsAlone state ((role, seat) ∷ []) = is_yielding state ≡ seat.drew
IsAlone state (a ∷ b ∷ seats) = ⊥

landing-quiet :
    (drew : Bool) (state : AgentState)
    → is_yielding state ≡ drew
    → is_yielding (after_landing drew state) ≡ false
landing-quiet true yielding h = refl
landing-quiet true active h = refl
landing-quiet true depleted h = refl
landing-quiet true awaiting_grade h = refl
landing-quiet true settled h = refl
landing-quiet false yielding h = h
landing-quiet false active h = refl
landing-quiet false depleted h = refl
landing-quiet false awaiting_grade h = refl
landing-quiet false settled h = refl

failing-quiet :
    (drew : Bool) (state : AgentState)
    → is_yielding state ≡ drew
    → is_yielding (if drew then depleted else state) ≡ false
failing-quiet true state h = refl
failing-quiet false state h = h

module _ (role r : String) (seat : Seat) (state : AgentState) (level : Level)
    (drawn : List ReserveDraw) (reserved : ℕ) where
  abbrev alone : PoolState
  alone = record {
    agent_state = state;
    pool_remaining = level;
    draws = drawn;
    pool_reserved = reserved;
    seats = (r, seat) ∷ [];
  }

  abbrev Keeps : (Seat → PoolState → PoolState) → Type 0
  Keeps f =
      let after = to_seat f (lookup role alone.seats) alone in
      IsAlone state alone.seats → IsAlone after.agent_state after.seats

  draws-IsAlone : Keeps (granted role)
  unfolding granted lookup put
  draws-IsAlone h = elim (Bool-cases (r == role)) [ inl e ↦ rw (e, e) refl | inr e ↦ rw e h ]

  denied-IsAlone : Keeps (denied role)
  unfolding denied lookup put
  denied-IsAlone h = elim (Bool-cases (r == role)) [ inl e ↦ rw (e, e) h | inr e ↦ rw e h ]

  lands-IsAlone : Keeps (landed role)
  unfolding landed lookup leave
  lands-IsAlone h = elim (Bool-cases (r == role)) [
    | inl e ↦ rw (e, e) (landing-quiet seat.drew state h)
    | inr e ↦ rw e h
  ]

  fails-IsAlone : Keeps (failed role)
  unfolding failed lookup leave
  fails-IsAlone h = elim (Bool-cases (r == role)) [
    | inl e ↦ rw (e, e) (failing-quiet seat.drew state h)
    | inr e ↦ rw e h
  ]

pool_step-IsAlone :
    (op : PoolOp) (state : AgentState) (level : Level) (drawn : List ReserveDraw) (reserved : ℕ)
    (seats : Dict Seat)
    → IsNext op seats
    → IsAlone state seats
    → let after = pool_step op (record {
      agent_state = state;
      pool_remaining = level;
      draws = drawn;
      pool_reserved = reserved;
      seats = seats;
    }) in
      IsAlone after.agent_state after.seats
unfolding pool_step prepare_chair lookup
pool_step-IsAlone op state level drawn reserved (a ∷ b ∷ seats) n h = absurd h
pool_step-IsAlone (prepares role declared) state level drawn reserved [] n h = h
pool_step-IsAlone (prepares role declared) state level drawn reserved (a ∷ []) n h = cons-nil n
pool_step-IsAlone (draws role) state level drawn reserved [] n h = h
pool_step-IsAlone (draws role) state level drawn reserved ((r, seat) ∷ []) n h =
    draws-IsAlone role r seat state level drawn reserved h
pool_step-IsAlone (denied_draw role) state level drawn reserved [] n h = h
pool_step-IsAlone (denied_draw role) state level drawn reserved ((r, seat) ∷ []) n h =
    denied-IsAlone role r seat state level drawn reserved h
pool_step-IsAlone (lands role) state level drawn reserved [] n h = h
pool_step-IsAlone (lands role) state level drawn reserved ((r, seat) ∷ []) n h =
    lands-IsAlone role r seat state level drawn reserved h
pool_step-IsAlone (fails role) state level drawn reserved [] n h = h
pool_step-IsAlone (fails role) state level drawn reserved ((r, seat) ∷ []) n h =
    fails-IsAlone role r seat state level drawn reserved h

alone-TellsDraws :
    (state : AgentState) (seats : Dict Seat)
    → IsAlone state seats
    → is_yielding state ≡ any (λ e. e.1.drew) seats
unfolding any
alone-TellsDraws state [] h = h
alone-TellsDraws state ((r, seat) ∷ []) h = ground (arith, h)
alone-TellsDraws state (a ∷ b ∷ seats) h = absurd h

run_alone :
    (ops : List PoolOp) (s : PoolState)
    → IsSequential ops s
    → IsAlone s.agent_state s.seats
    → TellsDraws (run_pool ops s)
unfolding run_pool IsSequential
run_alone [] s q h = alone-TellsDraws s.agent_state s.seats h
run_alone (op ∷ ops) s q h =
    run_alone ops (pool_step op s) q.1
      (pool_step-IsAlone op s.agent_state s.pool_remaining s.draws s.pool_reserved s.seats q.0 h)

-- While the chairs of a gig run one after the other, the gig is yielding exactly when the chair that runs has
-- drawn from its reserve.
pub run_pool-TellsDraws :
    (pool : ℕ) (ops : List PoolOp)
    → IsSequential ops (opened pool)
    → TellsDraws (run_pool ops (opened pool))
run_pool-TellsDraws pool ops q = run_alone ops (opened pool) q refl
