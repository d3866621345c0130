-- ===== src/LocalQueue/Conservation.antt =====
-- No verb loses a gig or makes one up, and none leaves a gig in two directories.
use coltrane.Base.{
  ℕ, String, ◌≡◌, ap, true, Option, some, List, [], ◌∷◌, arith, ◌==◌, keys, sorted, Option-cases,
  Bool-cases, inl, inr,
}
use coltrane.Base.Json.{Json}
use coltrane.LocalQueue.{
  StoredGig, readable, Disk, Place, queued, claimed, parked, done, failed, cancelled, rename,
  atomic_write, read_gig, parsed, moved, leased, held_claim, claim_from, claim, heartbeat, reap_one,
  reap_from, reap, Reaped, lapsed, park, approve, cancel, complete, fail, is_empty_verdict, locate,
  may_complete, seal_row, to_done, sealed_with,
}
use coltrane.LocalQueue.Copies.{
  read_gig-present, Move, claiming, requeueing, parking, approving, cancelling, completing, failing,
  SameCopies, IsPlaced, SameCopies-refl, SameCopies-trans, SameCopies-IsPlaced, rewrite-SameCopies,
  rename-SameCopies, rename-arrives,
}
use coltrane.LocalQueue.Verbs.{after}

-- The held row of a verb is readable under claimed/.
pub held_claim-reads :
    (worker id : String) (d : Disk) (g : StoredGig)
    → held_claim worker id d ≡ some g
    → read_gig claimed id d ≡ some g
held_claim-reads worker id d g h = ground arith

pub heartbeat-SameCopies :
    (worker id : String) (now lease_ms : ℕ) (d : Disk)
    → SameCopies d (heartbeat worker id now lease_ms d).1
unfolding heartbeat
heartbeat-SameCopies worker id now lease_ms d = elim (Option-cases (held_claim worker id d)) [
  | inl e ↦ rw (e, heartbeat) (SameCopies-refl d)
  | inr (g, e) ↦
      rw (e, heartbeat)
        (rewrite-SameCopies claimed id g (leased worker now lease_ms g) d
          (held_claim-reads worker id d g e))
]

-- A row that is rewritten and then renamed.
rewrite_rename-SameCopies :
    {p q : Place} (move : Move p q) (id : String) (g g' : StoredGig) (d : Disk)
    → IsPlaced d
    → read_gig p id d ≡ some g
    → SameCopies d (moved (atomic_write p id g' d) (rename p q id (atomic_write p id g' d)))
rewrite_rename-SameCopies {p} {q} move id g g' d h e =
    let kept : SameCopies d (atomic_write p id g' d) = rewrite-SameCopies p id g g' d e in
    SameCopies-trans kept (rename-SameCopies move id _ (SameCopies-IsPlaced kept h))

claim_from-SameCopies :
    (worker : String) (now lease_ms : ℕ) (ids : List String) (d : Disk)
    → IsPlaced d
    → SameCopies d (claim_from worker now lease_ms ids d).1
unfolding claim_from
claim_from-SameCopies worker now lease_ms [] d h = SameCopies-refl d
claim_from-SameCopies worker now lease_ms (id ∷ ids) d h =
    elim (Option-cases (rename queued claimed id d)) [
      | inl e ↦ rw (e, claim_from) (claim_from-SameCopies worker now lease_ms ids d h)
      | inr (d', e) ↦
          let took : SameCopies d d' = rw (ap (moved d) e) at (rename-SameCopies claiming id d h) in
          let placed : IsPlaced d' = SameCopies-IsPlaced took h in
          elim (Option-cases (read_gig claimed id d')) [
            | inl e' ↦
                rw (e, claim_from, e', claim_from)
                  (SameCopies-trans took (claim_from-SameCopies worker now lease_ms ids d' placed))
            | inr (g, e') ↦
                rw (e, claim_from, e', claim_from)
                  (SameCopies-trans took
                    (rewrite-SameCopies claimed id g (leased worker now lease_ms g) d' e'))
          ]
    ]

pub claim-SameCopies :
    (worker : String) (now lease_ms : ℕ) (d : Disk)
    → IsPlaced d
    → SameCopies d (claim worker now lease_ms d).1
unfolding claim
claim-SameCopies worker now lease_ms d h =
    claim_from-SameCopies worker now lease_ms (sorted (keys d.queued_dir)) d h

reap_one-SameCopies :
    (now : ℕ) (id : String) (r : Reaped) (d : Disk)
    → IsPlaced d
    → SameCopies d (reap_one now id (r, d)).1
unfolding reap_one
reap_one-SameCopies now id r d h = elim (Option-cases (read_gig claimed id d)) [
  | inl e ↦ rw (e, reap_one) (SameCopies-refl d)
  | inr (g, e) ↦ elim (Bool-cases (lapsed now g)) [
    | inl old ↦ rw (e, reap_one, old) (rename-SameCopies requeueing id d h)
    | inr fresh ↦ rw (e, reap_one, fresh) (SameCopies-refl d)
  ]
]

reap_from-SameCopies :
    (now : ℕ) (ids : List String) (s : Reaped × Disk)
    → IsPlaced s.1
    → SameCopies s.1 (reap_from now ids s).1
unfolding reap_from
reap_from-SameCopies now [] s h = SameCopies-refl s.1
reap_from-SameCopies now (id ∷ ids) s h =
    let one : SameCopies s.1 (reap_one now id s).1 = reap_one-SameCopies now id s.0 s.1 h in
    SameCopies-trans one
      (reap_from-SameCopies now ids (reap_one now id s) (SameCopies-IsPlaced one h))

pub reap-SameCopies : (now : ℕ) (d : Disk) → IsPlaced d → SameCopies d (reap now d).1
unfolding reap
reap-SameCopies now d h = reap_from-SameCopies now (keys d.claimed_dir) _ h

-- What was readable at the source is readable at the destination.
pub rename-reads :
    {p q : Place} (move : Move p q) (id : String) (g : StoredGig) (d : Disk)
    → read_gig p id d ≡ some g
    → read_gig q id (moved d (rename p q id d)) ≡ some g
unfolding read_gig
rename-reads {p} move id g d e =
    ap parsed (rename-arrives move id (readable g) d (read_gig-present p id d g e))

pub park-SameCopies :
    (worker id : String) (d : Disk) → IsPlaced d → SameCopies d (park worker id d).1
unfolding park
park-SameCopies worker id d h = elim (Option-cases (held_claim worker id d)) [
  | inl e ↦ rw (e, park) (SameCopies-refl d)
  | inr (g, e) ↦
      rw (e, park)
        (SameCopies-trans (rename-SameCopies parking id d h) (
          rewrite-SameCopies parked id g _ _
            (rename-reads parking id g d (held_claim-reads worker id d g e))))
]

pub fail-SameCopies :
    (worker id error : String) (d : Disk) → IsPlaced d → SameCopies d (fail worker id error d).1
unfolding fail
fail-SameCopies worker id error d h = elim (Option-cases (held_claim worker id d)) [
  | inl e ↦ rw (e, fail) (SameCopies-refl d)
  | inr (g, e) ↦
      rw (e, fail) (rewrite_rename-SameCopies failing id g _ d h (held_claim-reads worker id d g e))
]

pub cancel-SameCopies : (id : String) (d : Disk) → IsPlaced d → SameCopies d (cancel id d).1
unfolding cancel
cancel-SameCopies id d h = rename-SameCopies cancelling id d h

pub approve-SameCopies :
    (id role : String) (verdict : Json) (by : Option String) (d : Disk)
    → IsPlaced d
    → SameCopies d (after d (approve id role verdict by d))
unfolding approve
approve-SameCopies id role verdict by d h = elim (Bool-cases (is_empty_verdict verdict)) [
  | inl bad ↦ rw (bad, approve) (SameCopies-refl d)
  | inr good ↦ elim (Option-cases (read_gig parked id d)) [
    | inl e ↦ rw (good, approve, e, approve) (SameCopies-refl d)
    | inr (g, e) ↦ rw (good, approve, e, approve) (rewrite_rename-SameCopies approving id g _ d h e)
  ]
]

seal_row-SameCopies :
    (worker sha id : String) (output : Json) (p : Place) (g : StoredGig) (d : Disk)
    → IsPlaced d
    → read_gig p id d ≡ some g
    → may_complete worker p g ≡ true
    → SameCopies d (after d (seal_row sha output p id g d))
unfolding seal_row
seal_row-SameCopies worker sha id output p g d h e may = elim (Option-cases g.content_sha) [
  | inr (old, s) ↦ elim (Bool-cases (old == sha)) [
    | inl same ↦ rw (s, seal_row, same) (SameCopies-refl d)
    | inr other ↦ rw (s, seal_row, other) (SameCopies-refl d)
  ]
  | inl s ↦ rw (s, seal_row) (first_seal p e may)
]
  where
    first_seal :
        (p : Place)
        → read_gig p id d ≡ some g
        → may_complete worker p g ≡ true
        → SameCopies d (to_done p id (atomic_write p id (sealed_with sha output g) d))
    first_seal claimed e may = rewrite_rename-SameCopies completing id g _ d h e
    first_seal done e may = rewrite-SameCopies done id g _ d e
    first_seal queued e may = cc
    first_seal parked e may = cc
    first_seal failed e may = cc
    first_seal cancelled e may = cc

pub complete-SameCopies :
    (seal : Json → String) (worker id : String) (output : Json) (d : Disk)
    → IsPlaced d
    → SameCopies d (after d (complete seal worker id output d))
unfolding complete
complete-SameCopies seal worker id output d h = elim (Option-cases (locate id d)) [
  | inl e ↦ rw (e, complete) (SameCopies-refl d)
  | inr (p, e) ↦ elim (Option-cases (read_gig p id d)) [
    | inl e' ↦ rw (e, complete, e', complete) (SameCopies-refl d)
    | inr (g, e') ↦ elim (Bool-cases (may_complete worker p g)) [
      | inl may ↦
          rw (e, complete, e', complete, may)
            (seal_row-SameCopies worker _ id output p g d h e' may)
      | inr bad ↦ rw (e, complete, e', complete, bad) (SameCopies-refl d)
    ]
  ]
]
