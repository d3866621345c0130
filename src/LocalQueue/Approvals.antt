-- ===== src/LocalQueue/Approvals.antt =====
-- The human seat: a parked gig is out of every worker's reach until an approval queues it again.
use coltrane.Base.{
  ℕ, String, ◌≡◌, refl, ap, true, false, Option, none, some, [], or_else, ◌==◌, lookup, lookup-put,
  if◌then◌else◌, Option-cases, inl, inr,
}
use coltrane.Base.Json.{Json}
use coltrane.LocalQueue.{
  StoredGig, Approval, Disk, queued, claimed, parked, rename, atomic_write, read_gig, parsed, moved,
  approve, park, approved, is_empty_verdict, ok, held_claim, unleased, reap, heartbeat, fail,
}
use coltrane.LocalQueue.Copies.{read-atomic_write, rename-leaves, approving, parking}
use coltrane.LocalQueue.Conservation.{rename-reads}
use coltrane.LocalQueue.Leases.{reap-parked}

-- A verdict that says something moves a parked gig back to queued/ in one step, carrying the verdict
-- under its role beside the approvals of other roles.
approve-queued :
    (id role other : String) (verdict : Json) (by : Option String) (g : StoredGig) (d : Disk)
    → is_empty_verdict verdict ≡ false
    → read_gig parked id d ≡ some g
    → (d' : Disk) × (g' : StoredGig) × (approve id role verdict by d ≡ ok (true, d'))
      × (lookup id d'.parked_dir ≡ none)
      × (read_gig queued id d' ≡ some g')
      × (lookup other (or_else g'.approvals []) ≡ (
          if role == other
          then some (record { verdict = verdict; approved_by = by })
          else lookup other (or_else g.approvals [])))
unfolding approve
approve-queued id role other verdict by g d good e =
    let entry : Approval = record { verdict = verdict; approved_by = by } in
    let d₁ = atomic_write parked id (approved role entry g) d in
    (
      moved d₁ (rename parked queued id d₁),
      approved role entry g,
      rw (good, approve, e, approve),
      rename-leaves approving id d₁,
      rename-reads approving id (approved role entry g) d₁ (read-atomic_write parked id _ d),
      lookup-put role other entry (or_else g.approvals []),
    )

-- No row of that name is claimed after a park, and the parked row has no lease.
parked_row :
    (worker id : String) (d : Disk)
    → (park worker id d).0 ≡ true
    → (g : StoredGig) × (read_gig parked id (park worker id d).1 ≡ some g)
      × (g.lease ≡ none)
      × (read_gig claimed id (park worker id d).1 ≡ none)
unfolding park
parked_row worker id d done_it = elim (Option-cases (held_claim worker id d)) [
  | inl e ↦ cc (rw (e, park) at done_it)
  | inr (g, e) ↦
      let d₁ = moved d (rename claimed parked id d) in
      (
        unleased g,
        rw (e, park) (read-atomic_write parked id (unleased g) d₁),
        refl,
        rw (e, park) (unfold read_gig atomic_write in ap parsed (rename-leaves parking id d)),
      )
]

unclaimed_refused :
    (worker id error : String) (now lease_ms : ℕ) (d : Disk)
    → read_gig claimed id d ≡ none
    → (heartbeat worker id now lease_ms d ≡ (false, d)) × (fail worker id error d ≡ (false, d))
unfolding heartbeat fail
unclaimed_refused worker id error now lease_ms d e =
    let none_held : held_claim worker id d ≡ none = rw (e, held_claim) in
    (rw (none_held, heartbeat), rw (none_held, fail))

-- A worker that parks its gig gives it up: the row is under parked/ with no lease and stays there
-- whatever the reaper does later, and no worker can renew or fail it.
park_gives_up :
    (worker other id error : String) (now later lease_ms : ℕ) (d : Disk)
    → (park worker id d).0 ≡ true
    → (g : StoredGig) × (read_gig parked id (reap later (park worker id d).1).1 ≡ some g)
      × (g.lease ≡ none)
      × (heartbeat other id now lease_ms (park worker id d).1 ≡ (false, (park worker id d).1))
      × (fail other id error (park worker id d).1 ≡ (false, (park worker id d).1))
unfolding read_gig
park_gives_up worker other id error now later lease_ms d done_it =
    let (g, there, free, gone) = parked_row worker id d done_it in
    let (beat, failed) = unclaimed_refused other id error now lease_ms (park worker id d).1 gone in
    (g, rw (reap-parked later (park worker id d).1) there, free, beat, failed)
