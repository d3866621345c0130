-- ===== src/ReservePool.antt =====
-- src/runtime.ts: the pool of reserve turns of a gig, from which the chairs of a batch are lent. A chair is
-- prepared, may draw or be refused while it runs, and then lands or fails; the chairs of a batch run side by
-- side, so that their events come in any order.
mod Lending
mod Yielding
mod Tests
use coltrane.Base.{
  ℕ, ◌+◌, ◌-◌, String, Bool, true, false, Option, none, some, List, [], ◌∷◌, ◌++◌, ◌==◌, Dict,
  lookup, put, or_else, leb, if◌then◌else◌,
}

-- A number that may fall below zero
pub data Level : Type 0 where
  left overdrawn : ℕ → Level

-- `level - turns`
abbrev pub lower : Level → ℕ → Level
lower (left n) turns = if leb turns n then left (n - turns) else overdrawn (turns - n)
lower (overdrawn d) turns = overdrawn (d + turns)

-- `Math.max(0, level - held)`
abbrev pub available : Level → ℕ → ℕ
available (left n) held = n - held
available (overdrawn d) held = 0

pub data AgentState : Type 0 where
  active yielding depleted awaiting_grade settled : AgentState

pub record ReserveDraw : Type 0 where
  pub role : String
  pub granted : ℕ
  pub pool_remaining_after : Level
  pub denied : Bool

-- What the invocation of a chair keeps: `reserveHeld`, `drew` and `reserveSettled`
pub record Seat : Type 0 where
  pub held : ℕ
  pub drew : Bool
  pub is_settled : Bool

-- The snapshot of the budget, with the holds that are not settled and the chairs that run
pub record PoolState : Type 0 where
  pub agent_state : AgentState
  pub pool_remaining : Level
  pub draws : List ReserveDraw
  pub pool_reserved : ℕ
  pub seats : Dict Seat

abbrev pub opened : ℕ → PoolState
opened turns = record {
  agent_state = active;
  pool_remaining = left turns;
  draws = [];
  pool_reserved = 0;
  seats = [];
}

-- The pool opens with the turns of the dispatch, else with the standard's, and at zero when only money is
-- counted; with none of the three there is no snapshot.
unfoldable pub open_pool : Option ℕ → Option ℕ → Bool → Option PoolState
open_pool (some turns) reserve_pool has_ceiling = some (opened turns)
open_pool none (some turns) has_ceiling = some (opened turns)
open_pool none none true = some (opened 0)
open_pool none none false = none

-- The offer of `prepareChair` to a chair that declares a reserve
abbrev pub reserve_offer : Option ℕ → PoolState → Option ℕ
reserve_offer none s = none
reserve_offer (some declared) s =
    let lendable = available s.pool_remaining s.pool_reserved in
    some (if leb declared lendable then declared else lendable)

unfoldable pub prepare_chair : String → Option ℕ → PoolState → PoolState
prepare_chair role declared s =
    let held = or_else (reserve_offer declared s) 0 in
    record s {
      pool_reserved = s.pool_reserved + held;
      seats = (role, record { held = held; drew = false; is_settled = false }) ∷ s.seats;
    }

-- `releaseHold`, on the holds
abbrev pub release_hold : Seat → ℕ → ℕ
release_hold seat reserved = if seat.is_settled then reserved else reserved - seat.held

abbrev pub settle : Bool → Seat → Seat
settle drew seat = record seat { drew = drew; is_settled = true }

unfoldable pub granted : String → Seat → PoolState → PoolState
granted role seat s =
    let remaining = lower s.pool_remaining seat.held in
    record {
      agent_state = yielding;
      pool_remaining = remaining;
      draws =
          s.draws
          ++ record {
            role = role;
            granted = seat.held;
            pool_remaining_after = remaining;
            denied = false;
          }
            ∷ [];
      pool_reserved = release_hold seat s.pool_reserved;
      seats = put role (settle true seat) s.seats;
    }

unfoldable pub denied : String → Seat → PoolState → PoolState
denied role seat s = record s {
  draws =
      s.draws
      ++ record { role = role; granted = 0; pool_remaining_after = s.pool_remaining; denied = true }
        ∷ [];
  pool_reserved = release_hold seat s.pool_reserved;
  seats = put role (settle seat.drew seat) s.seats;
}

-- The other chairs, when this one has ended
unfoldable pub leave : String → Dict Seat → Dict Seat
leave role [] = []
leave role ((r, seat) ∷ seats) =
    let rest = leave role seats in if r == role then seats else (r, seat) ∷ rest

abbrev pub after_landing : Bool → AgentState → AgentState
after_landing true yielding = active
after_landing drew state = state

unfoldable pub landed : String → Seat → PoolState → PoolState
unfolding leave
landed role seat s = record s {
  agent_state = after_landing seat.drew s.agent_state;
  pool_reserved = release_hold seat s.pool_reserved;
  seats = leave role s.seats;
}

unfoldable pub failed : String → Seat → PoolState → PoolState
unfolding leave
failed role seat s = record s {
  agent_state = if seat.drew then depleted else s.agent_state;
  pool_reserved = release_hold seat s.pool_reserved;
  seats = leave role s.seats;
}

pub data PoolOp : Type 0 where
  prepares : String → Option ℕ → PoolOp
  draws denied_draw lands fails : String → PoolOp

-- What happens to the chair of a role, while it runs
abbrev pub to_seat : (Seat → PoolState → PoolState) → Option Seat → PoolState → PoolState
to_seat f none s = s
to_seat f (some seat) s = f seat s

unfoldable pub pool_step : PoolOp → PoolState → PoolState
unfolding prepare_chair granted denied landed failed
pool_step (prepares role declared) s = prepare_chair role declared s
pool_step (draws role) s = to_seat (granted role) (lookup role s.seats) s
pool_step (denied_draw role) s = to_seat (denied role) (lookup role s.seats) s
pool_step (lands role) s = to_seat (landed role) (lookup role s.seats) s
pool_step (fails role) s = to_seat (failed role) (lookup role s.seats) s

unfoldable pub run_pool : List PoolOp → PoolState → PoolState
unfolding pool_step
run_pool [] s = s
run_pool (op ∷ ops) s = run_pool ops (pool_step op s)
