-- ===== src/ReservePool/Lending.antt =====
-- The pool of reserve turns in src/runtime.ts is never lent past what it holds.
use coltrane.Base.{
  ℕ, ◌+◌, ◌-◌, ◌≤◌, String, true, false, ◌≡◌, refl, sym, ap, ◌∙◌, Option, none, some, List, [], ◌∷◌,
  ◌++◌, ◌==◌, Dict, lookup, put, or_else, arith, if◌then◌else◌, Bool-cases, inl, inr, Option-cases,
  none-some, some-eq_some,
}
use coltrane.ReservePool.{
  left, lower, available, ReserveDraw, Seat, PoolState, opened, reserve_offer, prepare_chair,
  release_hold, settle, granted, denied, leave, landed, failed, PoolOp, prepares, draws,
  denied_draw, lands, fails, to_seat, pool_step, run_pool,
}

-- The turns that a chair holds and has not settled
abbrev pub pending : Seat → ℕ
pending seat = if seat.is_settled then 0 else seat.held

unfoldable pub holds : Dict Seat → ℕ
holds [] = 0
holds ((r, seat) ∷ seats) = pending seat + holds seats

unfoldable pub lent : List ReserveDraw → ℕ
lent [] = 0
lent (d ∷ ds) = d.granted + lent ds

lent-append : (ds : List ReserveDraw) (d : ReserveDraw) → lent (ds ++ d ∷ []) ≡ lent ds + d.granted
unfolding lent
lent-append [] d = omega arith
lent-append (e ∷ ds) d = let rest = lent-append ds d in omega (arith, rest)

holds-put :
    (role : String) (seat new : Seat) (seats : Dict Seat)
    → lookup role seats ≡ some seat
    → holds (put role new seats) + pending seat ≡ holds seats + pending new
unfolding holds put lookup
holds-put role seat new [] h = none-some h
holds-put role seat new ((r, s) ∷ seats) h = elim (Bool-cases (r == role)) [
  | inl e ↦ let same = some-eq_some (rw e at h) in rw (e, same) (omega arith)
  | inr e ↦ let rest = holds-put role seat new seats (rw e at h) in rw e (omega (arith, rest))
]

holds-leave :
    (role : String) (seat : Seat) (seats : Dict Seat)
    → lookup role seats ≡ some seat
    → holds (leave role seats) + pending seat ≡ holds seats
unfolding holds leave lookup
holds-leave role seat [] h = none-some h
holds-leave role seat ((r, s) ∷ seats) h = elim (Bool-cases (r == role)) [
  | inl e ↦ let same = some-eq_some (rw e at h) in rw (e, same) (omega arith)
  | inr e ↦ let rest = holds-leave role seat seats (rw e at h) in rw e (omega (arith, rest))
]

-- The holds that are counted are those of the chairs that run; with what was lent, and what is left, they are
-- within the pool.
pub record IsConserved (pool : ℕ) (s : PoolState) : Type 0 where
  pub reserved : s.pool_reserved ≡ holds s.seats
  pub remaining : s.pool_remaining ≡ left (pool - lent s.draws)
  pub within : lent s.draws + holds s.seats ≤ pool

offer-le :
    (declared : Option ℕ) (s : PoolState)
    → or_else (reserve_offer declared s) 0 ≤ available s.pool_remaining s.pool_reserved
offer-le none s = omega arith
offer-le (some n) s = ground arith

lower_left : (n turns : ℕ) → turns ≤ n → lower (left n) turns ≡ left (n - turns)
lower_left n turns h = ground (arith, h)

module _ (pool : ℕ) where
  prepare_chair-IsConserved :
      (role : String) (declared : Option ℕ) (s : PoolState)
      → IsConserved pool s
      → IsConserved pool (prepare_chair role declared s)
  unfolding prepare_chair holds
  prepare_chair-IsConserved role declared s c =
      let lendable : available s.pool_remaining s.pool_reserved
          ≡ pool - lent s.draws - s.pool_reserved =
        ap (λ level. available level s.pool_reserved) c.remaining in
      let offered = offer-le declared s in
      let reserved = c.reserved in
      let within = c.within in
      record {
        reserved = omega (arith, reserved);
        remaining = c.remaining;
        within = omega (arith, lendable, offered, reserved, within);
      }

  module _ (role : String) (seat : Seat) (s : PoolState) (found : lookup role s.seats ≡ some seat)
      (c : IsConserved pool s) where
    released :
        (seats : Dict Seat)
        → holds seats + pending seat ≡ holds s.seats
        → release_hold seat s.pool_reserved ≡ holds seats
    released seats h = let reserved = c.reserved in ground (arith, h, reserved)

    granted-IsConserved : seat.is_settled ≡ false → IsConserved pool (granted role seat s)
    unfolding granted
    granted-IsConserved fresh =
        let put_seat : holds (put role (settle true seat) s.seats) + pending seat ≡ holds s.seats =
          holds-put role seat (settle true seat) s.seats found ∙ omega arith in
        let held : pending seat ≡ seat.held = rw fresh in
        let within = c.within in
        record {
          reserved = released _ put_seat;
          remaining =
              ap (λ level. lower level seat.held) c.remaining
              ∙ (lower_left (pool - lent s.draws) seat.held (omega (arith, put_seat, held, within))
                  ∙ ap left (rw lent-append (omega arith)));
          within = rw lent-append (omega (arith, put_seat, held, within));
        }

    denied-IsConserved : IsConserved pool (denied role seat s)
    unfolding denied
    denied-IsConserved =
        let put_seat : holds (put role (settle seat.drew seat) s.seats) + pending seat
            ≡ holds s.seats =
          holds-put role seat (settle seat.drew seat) s.seats found ∙ omega arith in
        let within = c.within in
        record {
          reserved = released _ put_seat;
          remaining =
              c.remaining ∙ ap (λ n. left (pool - n)) (sym (lent-append s.draws _ ∙ omega arith));
          within = rw lent-append (omega (arith, put_seat, within));
        }

    landed-IsConserved : IsConserved pool (landed role seat s)
    unfolding landed
    landed-IsConserved =
        let left_seats = holds-leave role seat s.seats found in
        let within = c.within in
        record {
          reserved = released _ left_seats;
          remaining = c.remaining;
          within = omega (arith, left_seats, within);
        }

    failed-IsConserved : IsConserved pool (failed role seat s)
    unfolding failed
    failed-IsConserved =
        let left_seats = holds-leave role seat s.seats found in
        let within = c.within in
        record {
          reserved = released _ left_seats;
          remaining = c.remaining;
          within = omega (arith, left_seats, within);
        }

  to_seat-IsConserved :
      (f : Seat → PoolState → PoolState) (role : String) (s : PoolState)
      → ((seat : Seat) → lookup role s.seats ≡ some seat → IsConserved pool (f seat s))
      → IsConserved pool s
      → IsConserved pool (to_seat f (lookup role s.seats) s)
  to_seat-IsConserved f role s keeps c = elim (Option-cases (lookup role s.seats)) [
    | inl e ↦ rw e c
    | inr (seat, e) ↦ rw e (keeps seat e)
  ]

-- A chair that draws has not settled its hold: an invocation draws at most once, and not once it was refused.
abbrev pub IsFresh : PoolOp → PoolState → Type 0
IsFresh (draws role) s = (seat : Seat) → lookup role s.seats ≡ some seat → seat.is_settled ≡ false
IsFresh _ s = Unit

unfoldable pub IsOrderly : List PoolOp → PoolState → Type 0
unfolding pool_step
IsOrderly [] s = Unit
IsOrderly (op ∷ ops) s = IsFresh op s × IsOrderly ops (pool_step op s)

pool_step-IsConserved :
    (pool : ℕ) (op : PoolOp) (s : PoolState)
    → IsFresh op s
    → IsConserved pool s
    → IsConserved pool (pool_step op s)
unfolding pool_step
pool_step-IsConserved pool (prepares role declared) s f c =
    prepare_chair-IsConserved pool role declared s c
pool_step-IsConserved pool (draws role) s f c =
    to_seat-IsConserved pool (granted role) role s
      (λ seat e. granted-IsConserved pool role seat s e c (f seat e)) c
pool_step-IsConserved pool (denied_draw role) s f c =
    to_seat-IsConserved pool (denied role) role s
      (λ seat e. denied-IsConserved pool role seat s e c) c
pool_step-IsConserved pool (lands role) s f c =
    to_seat-IsConserved pool (landed role) role s
      (λ seat e. landed-IsConserved pool role seat s e c) c
pool_step-IsConserved pool (fails role) s f c =
    to_seat-IsConserved pool (failed role) role s
      (λ seat e. failed-IsConserved pool role seat s e c) c

run_from-IsConserved :
    (pool : ℕ) (ops : List PoolOp) (s : PoolState)
    → IsOrderly ops s
    → IsConserved pool s
    → IsConserved pool (run_pool ops s)
unfolding run_pool IsOrderly
run_from-IsConserved pool [] s o c = c
run_from-IsConserved pool (op ∷ ops) s o c =
    run_from-IsConserved pool ops (pool_step op s) o.1 (pool_step-IsConserved pool op s o.0 c)

-- However the events of the chairs of a gig come between each other, as long as each invocation draws at most
-- once and not after it was refused: what is left of the pool is what it opened with less what was granted,
-- never below zero, the count of the held turns is that of the chairs that run, and with the granted turns
-- they are within the pool.
pub run_pool-IsConserved :
    (pool : ℕ) (ops : List PoolOp)
    → IsOrderly ops (opened pool)
    → IsConserved pool (run_pool ops (opened pool))
unfolding holds lent
run_pool-IsConserved pool ops o =
    run_from-IsConserved pool ops (opened pool) o
      (record { reserved = refl; remaining = ap left (omega arith); within = omega arith })
