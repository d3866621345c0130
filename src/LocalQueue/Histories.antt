-- ===== src/LocalQueue/Histories.antt =====
-- What holds after any sequence of verbs: each gig that was enqueued is in one directory, and no
-- other gig is anywhere.
use coltrane.Base.{
  ℕ, ◌+◌, String, ◌≡◌, List, [], ◌∷◌, arith, ◌==◌, eq_iff, Dict, lookup, lookup-put, if◌then◌else◌,
}
use coltrane.Base.Json.{Json, text_or}
use coltrane.LocalQueue.{Disk, readable, enqueue, atomic_write, fresh_gig}
use coltrane.LocalQueue.Copies.{copies, SameCopies, IsPlaced}
use coltrane.LocalQueue.Conservation
use coltrane.LocalQueue.Verbs.{
  Verb, enqueues, claims, beats, reaps, parks, approves, cancels, completes, fails, step, run,
  after,
}

-- How many files of gig `j` a verb adds.
abbrev created : Verb → String → ℕ
created (enqueues args id) j =
    if text_or "" (lookup "standard_slug" args) == "" then 0 else if id == j then 1 else 0
created _ j = 0

-- The UUID of a new gig is in no directory yet.
abbrev IsFresh : Disk → Verb → Type 0
IsFresh d (enqueues args id) = copies d id ≡ 0
IsFresh d _ = Unit

enqueue-copies :
    (args : Dict Json) (id j : String) (now : ℕ) (d : Disk)
    → copies d id ≡ 0
    → copies (after d (enqueue args id now d)) j ≡ copies d j + created (enqueues args id) j
unfolding enqueue copies atomic_write
enqueue-copies args id j now d fresh = ground (
  arith,
  lookup-put id j (readable (fresh_gig args (text_or "" (lookup "standard_slug" args)) id now))
      d.queued_dir,
  eq_iff id j,
)

module _ (seal : Json → String) (lease_ms : ℕ) where
  same_copies : {d d' : Disk} (j : String) → SameCopies d d' → copies d' j ≡ copies d j + 0
  same_copies j h = omega (arith, h.at j)

  -- A verb changes the number of files of a gig only by enqueueing it.
  copies-step :
      (d : Disk) (now : ℕ) (v : Verb) (j : String)
      → IsPlaced d
      → IsFresh d v
      → copies (step seal lease_ms d (now, v)) j ≡ copies d j + created v j
  unfolding step
  copies-step d now (enqueues args id) j h fresh = enqueue-copies args id j now d fresh
  copies-step d now (claims worker) j h fresh =
      omega (arith, (Conservation.claim-SameCopies worker now lease_ms d h).at j)
  copies-step d now (beats worker id) j h fresh =
      omega (arith, (Conservation.heartbeat-SameCopies worker id now lease_ms d).at j)
  copies-step d now reaps j h fresh = omega (arith, (Conservation.reap-SameCopies now d h).at j)
  copies-step d now (parks worker id) j h fresh =
      omega (arith, (Conservation.park-SameCopies worker id d h).at j)
  copies-step d now (approves id role verdict by) j h fresh =
      omega (arith, (Conservation.approve-SameCopies id role verdict by d h).at j)
  copies-step d now (cancels id) j h fresh =
      omega (arith, (Conservation.cancel-SameCopies id d h).at j)
  copies-step d now (completes worker id output) j h fresh =
      omega (arith, (Conservation.complete-SameCopies seal worker id output d h).at j)
  copies-step d now (fails worker id error) j h fresh =
      omega (arith, (Conservation.fail-SameCopies worker id error d h).at j)

  pub step-IsPlaced :
      (d : Disk) (now : ℕ) (v : Verb)
      → IsPlaced d
      → IsFresh d v
      → IsPlaced (step seal lease_ms d (now, v))
  step-IsPlaced d now (enqueues args id) h fresh = record {
    at = λ j.
        ground (arith, copies-step d now (enqueues args id) j h fresh, h.at j, eq_iff id j, fresh);
  }
  step-IsPlaced d now v h fresh = record {
    at = λ j. omega (arith, copies-step d now v j h fresh, h.at j);
  }

  -- Every new gig of a history gets an unused UUID.
  abbrev pub FreshRun : Disk → List (ℕ × Verb) → Type 0
  FreshRun d [] = Unit
  FreshRun d ((now, v) ∷ vs) = IsFresh d v × FreshRun (step seal lease_ms d (now, v)) vs

  abbrev pub created_in : List (ℕ × Verb) → String → ℕ
  created_in [] j = 0
  created_in ((now, v) ∷ vs) j = created v j + created_in vs j

  run-IsPlaced :
      (d : Disk) (vs : List (ℕ × Verb))
      → IsPlaced d
      → FreshRun d vs
      → IsPlaced (run seal lease_ms d vs)
  unfolding run
  run-IsPlaced d [] h fresh = h
  run-IsPlaced d ((now, v) ∷ vs) h fresh =
      run-IsPlaced (step seal lease_ms d (now, v)) vs (step-IsPlaced d now v h fresh.0) fresh.1

  -- After any history the number of files of each gig is what it was at first, and one more for
  -- each time it was enqueued.
  pub copies-run :
      (d : Disk) (vs : List (ℕ × Verb)) (j : String)
      → IsPlaced d
      → FreshRun d vs
      → copies (run seal lease_ms d vs) j ≡ copies d j + created_in vs j
  unfolding run
  copies-run d [] j h fresh = omega arith
  copies-run d ((now, v) ∷ vs) j h fresh = omega (
    arith,
    copies-run (step seal lease_ms d (now, v)) vs j (step-IsPlaced d now v h fresh.0) fresh.1,
    copies-step d now v j h fresh.0,
  )
