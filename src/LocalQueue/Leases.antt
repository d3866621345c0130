-- ===== src/LocalQueue/Leases.antt =====
-- Who may act on a claimed row, and what the reaper does to one.
use coltrane.Base.{
  ℕ, ◌+◌, ◌≤◌, ◌<◌, String, ◌≡◌, refl, ◌∙◌, Bool, true, false, Option, none, some, List, [], ◌∷◌,
  arith, ◌==◌, ◌&&◌, eq_iff, eq_refl, lookup, lookup-put, lookup-without, keys, includes,
  includes-keys, if◌then◌else◌, Option-cases, Bool-cases, inl, inr,
}
use coltrane.Base.Json.{Json}
use coltrane.LocalQueue.{
  StoredGig, File, readable, torn, Disk, claimed, rename, atomic_write, read_gig, leased,
  held_claim, held_by, throw, not_holder, heartbeat, reap_one, reap_from, reap, Reaped, lapsed,
  park, complete, fail, locate,
}
use coltrane.LocalQueue.Copies.{copies, read_gig-present}

-- A file that is in claimed/ alone is found there.
pub locate-claimed :
    (id : String) (f : File) (d : Disk)
    → copies d id ≤ 1
    → lookup id d.claimed_dir ≡ some f
    → locate id d ≡ some claimed
unfolding locate copies
locate-claimed id f d h there = ground arith

-- A worker that does not hold the lease of a claimed row can neither renew it, park it, fail it nor
-- complete it: each verb refuses and leaves the disk alone.
pub stranger_refused :
    (seal : Json → String) (worker id error : String) (output : Json) (now lease_ms : ℕ)
    (g : StoredGig) (d : Disk)
    → copies d id ≤ 1
    → read_gig claimed id d ≡ some g
    → held_by worker g.lease ≡ false
    → (heartbeat worker id now lease_ms d ≡ (false, d))
      × (park worker id d ≡ (false, d))
      × (fail worker id error d ≡ (false, d))
      × (complete seal worker id output d ≡ throw not_holder)
unfolding heartbeat park fail complete
stranger_refused seal worker id error output now lease_ms g d h e other =
    let none_held : held_claim worker id d ≡ none = rw (e, held_claim) (rw other) in
    (
      rw (none_held, heartbeat),
      rw (none_held, park),
      rw (none_held, fail),
      rw
          (
            locate-claimed id (readable g) d h (read_gig-present claimed id d g e),
            complete,
            e,
            complete,
          )
          (rw other),
    )

-- The file of a claim that the reaper takes back.
abbrev pub lapses : ℕ → Option File → Bool
lapses now (some (readable g)) = lapsed now g
lapses now _ = false

reap_one-claimed :
    (now : ℕ) (id j : String) (r : Reaped) (d : Disk)
    → lookup j (reap_one now id (r, d)).1.claimed_dir
      ≡ (if id == j && lapses now (lookup j d.claimed_dir) then none else lookup j d.claimed_dir)
unfolding reap_one rename read_gig
reap_one-claimed now id j r d = elim (Option-cases (lookup id d.claimed_dir)) [
  | inl e ↦ rw (e, reap_one) (ground (arith, eq_iff id j))
  | inr (torn, e) ↦ rw (e, reap_one) (ground (arith, eq_iff id j))
  | inr (readable g, e) ↦ elim (Bool-cases (lapsed now g)) [
    | inl old ↦
        rw (e, reap_one, old, e, rename)
          (ground (arith, eq_iff id j, lookup-without id j d.claimed_dir))
    | inr fresh ↦ rw (e, reap_one, fresh) (ground (arith, eq_iff id j))
  ]
]

reap_one-queued :
    (now : ℕ) (id j : String) (r : Reaped) (d : Disk)
    → lookup j (reap_one now id (r, d)).1.queued_dir ≡ (
        if id == j && lapses now (lookup j d.claimed_dir)
        then lookup j d.claimed_dir
        else lookup j d.queued_dir)
unfolding reap_one rename read_gig
reap_one-queued now id j r d = elim (Option-cases (lookup id d.claimed_dir)) [
  | inl e ↦ rw (e, reap_one) (ground (arith, eq_iff id j))
  | inr (torn, e) ↦ rw (e, reap_one) (ground (arith, eq_iff id j))
  | inr (readable g, e) ↦ elim (Bool-cases (lapsed now g)) [
    | inl old ↦
        rw (e, reap_one, old, e, rename)
          (ground (arith, eq_iff id j, lookup-put id j (readable g) d.queued_dir))
    | inr fresh ↦ rw (e, reap_one, fresh) (ground (arith, eq_iff id j))
  ]
]

reap_from-claimed :
    (now : ℕ) (ids : List String) (j : String) (s : Reaped × Disk)
    → lookup j (reap_from now ids s).1.claimed_dir ≡ (
        if includes j ids && lapses now (lookup j s.1.claimed_dir)
        then none
        else lookup j s.1.claimed_dir)
unfolding reap_from includes
reap_from-claimed now [] j s = refl
reap_from-claimed now (id ∷ ids) j s =
    rw (reap_from-claimed now ids j (reap_one now id s), reap_one-claimed now id j s.0 s.1)
      (ground arith)

reap_from-queued :
    (now : ℕ) (ids : List String) (j : String) (s : Reaped × Disk)
    → lookup j (reap_from now ids s).1.queued_dir ≡ (
        if includes j ids && lapses now (lookup j s.1.claimed_dir)
        then lookup j s.1.claimed_dir
        else lookup j s.1.queued_dir)
unfolding reap_from includes
reap_from-queued now [] j s = refl
reap_from-queued now (id ∷ ids) j s =
    rw
      (
        reap_from-queued now ids j (reap_one now id s),
        reap_one-claimed now id j s.0 s.1,
        reap_one-queued now id j s.0 s.1,
      )
      (ground arith)

-- A lapsed claim is among the names that the reaper reads.
lapses-listed :
    (now : ℕ) (j : String) (d : Disk)
    → (includes j (keys d.claimed_dir) && lapses now (lookup j d.claimed_dir))
      ≡ lapses now (lookup j d.claimed_dir)
lapses-listed now j d = elim (Option-cases (lookup j d.claimed_dir)) [
  | inl e ↦ rw e (ground arith)
  | inr (f, e) ↦ rw (includes-keys j d.claimed_dir f e)
]

-- The reaper moves exactly the claims whose lease has lapsed, each whole, from claimed/ to queued/.
pub reap-lookup :
    (now : ℕ) (d : Disk) (j : String)
    → (lookup j (reap now d).1.claimed_dir
        ≡ (if lapses now (lookup j d.claimed_dir) then none else lookup j d.claimed_dir))
      × (lookup j (reap now d).1.queued_dir ≡ (
          if lapses now (lookup j d.claimed_dir)
          then lookup j d.claimed_dir
          else lookup j d.queued_dir))
unfolding reap
reap-lookup now d j = (
  rw (reap_from-claimed now (keys d.claimed_dir) j _, lapses-listed now j d),
  rw (reap_from-queued now (keys d.claimed_dir) j _, lapses-listed now j d),
)

reap_from-parked :
    (now : ℕ) (ids : List String) (s : Reaped × Disk)
    → (reap_from now ids s).1.parked_dir ≡ s.1.parked_dir
unfolding reap_from reap_one rename
reap_from-parked now [] s = refl
reap_from-parked now (id ∷ ids) (r, d) =
    reap_from-parked now ids (reap_one now id (r, d)) ∙ ground arith

-- The reaper does not see parked/.
pub reap-parked : (now : ℕ) (d : Disk) → (reap now d).1.parked_dir ≡ d.parked_dir
unfolding reap
reap-parked now d = reap_from-parked now (keys d.claimed_dir) _

-- A lease that a heartbeat renewed protects its row until it lapses: whatever the reaper does before
-- that, the row is still claimed, by the same worker.
pub heartbeat_protects :
    (worker id : String) (now later lease_ms : ℕ) (d : Disk)
    → (heartbeat worker id now lease_ms d).0 ≡ true
    → later < now + lease_ms
    → (g : StoredGig) × (read_gig claimed id (reap later (heartbeat worker id now lease_ms d).1).1
        ≡ some g)
      × (held_by worker g.lease ≡ true)
unfolding heartbeat read_gig atomic_write
heartbeat_protects worker id now later lease_ms d beat soon =
    elim (Option-cases (held_claim worker id d)) [
      | inl e ↦ cc (rw (e, heartbeat) at beat)
      | inr (g, e) ↦
          let g' : StoredGig = leased worker now lease_ms g in
          (
            g',
            rw
                (
                  e,
                  heartbeat,
                  (reap-lookup later _ id).0,
                  lookup-put id id (readable g') d.claimed_dir,
                )
                (rw (eq_refl id) (ground arith)),
            eq_refl worker,
          )
    ]
