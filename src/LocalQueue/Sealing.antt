-- ===== src/LocalQueue/Sealing.antt =====
-- `complete`: the holder's first call seals the output and moves the row to done/; any later call
-- meets that seal.
use coltrane.Base.{
  ◌≤◌, String, ◌≡◌, refl, ap, true, false, none, some, arith, ◌==◌, lookup, if◌then◌else◌,
}
use coltrane.Base.Json.{Json}
use coltrane.LocalQueue.{
  StoredGig, readable, Disk, claimed, done, rename, atomic_write, read_gig, moved, held_by, ok,
  throw, forked_result, complete, seal_row, sealed_with,
}
use coltrane.LocalQueue.Copies.{
  copies, IsPlaced, SameCopies, read_gig-present, read-atomic_write, rename-leaves, completing,
}
use coltrane.LocalQueue.Conservation.{rename-reads, complete-SameCopies}
use coltrane.LocalQueue.Leases.{locate-claimed}
use coltrane.LocalQueue.Terminal.{complete-sealed}
use coltrane.LocalQueue.Verbs.{after}

module _ (seal : Json → String) (worker id : String) (output : Json) where
  -- The disk that the first completion leaves.
  abbrev sealed_disk : StoredGig → Disk → Disk
  sealed_disk g d =
      let d' = atomic_write claimed id (sealed_with (seal output) output g) d in
      moved d' (rename claimed done id d')

  first_complete :
      (g : StoredGig) (d : Disk)
      → copies d id ≤ 1
      → read_gig claimed id d ≡ some g
      → held_by worker g.lease ≡ true
      → g.content_sha ≡ none
      → complete seal worker id output d
        ≡ ok (record { content_sha = seal output; duplicated = false }, sealed_disk g d)
  unfolding complete seal_row
  first_complete g d h e mine unsealed =
      rw
        (
          locate-claimed id (readable g) d h (read_gig-present claimed id d g e),
          complete,
          e,
          complete,
          mine,
        )
        (rw (unsealed, seal_row))

  -- The holder of a claimed gig that has no seal completes it: the row leaves claimed/ for done/ with
  -- the output and its hash. A second call with an output of the same hash reports a duplicate and
  -- one with another hash fails; both leave the disk alone.
  pub complete_once :
      (again : Json) (g : StoredGig) (d : Disk)
      → IsPlaced d
      → read_gig claimed id d ≡ some g
      → held_by worker g.lease ≡ true
      → g.content_sha ≡ none
      → (d' : Disk) × (complete seal worker id output d
          ≡ ok (record { content_sha = seal output; duplicated = false }, d'))
        × (read_gig done id d' ≡ some (sealed_with (seal output) output g))
        × (lookup id d'.claimed_dir ≡ none)
        × (complete seal worker id again d' ≡ (
            if seal output == seal again
            then ok (record { content_sha = seal again; duplicated = true }, d')
            else throw forked_result))
  complete_once again g d h e mine unsealed =
      let g' = sealed_with (seal output) output g in
      let d₁ = atomic_write claimed id g' d in
      let first = first_complete g d (h.at id) e mine unsealed in
      let there = rename-reads completing id g' d₁ (read-atomic_write claimed id g' d) in
      let kept : SameCopies d (sealed_disk g d) =
        rw (ap (after d) first) at (complete-SameCopies seal worker id output d h) in
      (
        sealed_disk g d,
        first,
        there,
        rename-leaves completing id d₁,
        rw
            (complete-sealed seal worker id (seal output) again g' (sealed_disk g d)
              (omega (arith, kept.at id, h.at id)) there refl)
            (rw mine),
      )
