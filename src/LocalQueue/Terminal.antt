-- ===== src/LocalQueue/Terminal.antt =====
-- A completed gig stays completed: no verb changes its row, and none hands it out again.
use coltrane.Base.{
  ℕ, ◌≤◌, String, ◌≡◌, refl, ap, ◌∙◌, true, false, Option, none, some, List, [], ◌∷◌, arith, ◌==◌,
  eq_iff, Dict, lookup, put, lookup-put, keys, sorted, if◌then◌else◌, Option-cases, Bool-cases, inl,
  inr,
}
use coltrane.Base.Json.{Json}
use coltrane.LocalQueue.{
  StoredGig, File, readable, Disk, Place, queued, claimed, parked, done, failed, cancelled, rename,
  atomic_write, read_gig, parsed, held_by, ok, claim_from, claim, heartbeat, reap_one, reap_from,
  reap, Reaped, park, approve, cancel, complete, fail, enqueue, throw, forked_result, not_holder,
  locate, may_complete, seal_row, sealed_with,
}
use coltrane.LocalQueue.Histories.{FreshRun, step-IsPlaced}
use coltrane.LocalQueue.Copies.{copies, IsPlaced, read_gig-present}
use coltrane.LocalQueue.Verbs.{
  Verb, enqueues, claims, beats, reaps, parks, approves, cancels, completes, fails, step, run,
  after,
}

heartbeat-done :
    (worker id : String) (now lease_ms : ℕ) (d : Disk)
    → (heartbeat worker id now lease_ms d).1.done_dir ≡ d.done_dir
unfolding heartbeat atomic_write
heartbeat-done worker id now lease_ms d = ground arith

park-done : (worker id : String) (d : Disk) → (park worker id d).1.done_dir ≡ d.done_dir
unfolding park atomic_write rename
park-done worker id d = ground arith

fail-done : (worker id error : String) (d : Disk) → (fail worker id error d).1.done_dir ≡ d.done_dir
unfolding fail atomic_write rename
fail-done worker id error d = ground arith

cancel-done : (id : String) (d : Disk) → (cancel id d).1.done_dir ≡ d.done_dir
unfolding cancel rename
cancel-done id d = ground arith

enqueue-done :
    (args : Dict Json) (id : String) (now : ℕ) (d : Disk)
    → (after d (enqueue args id now d)).done_dir ≡ d.done_dir
unfolding enqueue atomic_write
enqueue-done args id now d = ground arith

approve-done :
    (id role : String) (verdict : Json) (by : Option String) (d : Disk)
    → (after d (approve id role verdict by d)).done_dir ≡ d.done_dir
unfolding approve atomic_write rename
approve-done id role verdict by d = ground arith

reap_one-done :
    (now : ℕ) (id : String) (s : Reaped × Disk) → (reap_one now id s).1.done_dir ≡ s.1.done_dir
unfolding reap_one rename
reap_one-done now id (r, d) = ground arith

reap_from-done :
    (now : ℕ) (ids : List String) (s : Reaped × Disk)
    → (reap_from now ids s).1.done_dir ≡ s.1.done_dir
unfolding reap_from
reap_from-done now [] s = refl
reap_from-done now (id ∷ ids) s =
    reap_from-done now ids (reap_one now id s) ∙ reap_one-done now id s

rename_claim-done :
    (id : String) (d d' : Disk) → rename queued claimed id d ≡ some d' → d'.done_dir ≡ d.done_dir
unfolding rename
rename_claim-done id d d' e = ground arith

claim_from-done :
    (worker : String) (now lease_ms : ℕ) (ids : List String) (d : Disk)
    → (claim_from worker now lease_ms ids d).1.done_dir ≡ d.done_dir
unfolding claim_from atomic_write
claim_from-done worker now lease_ms [] d = refl
claim_from-done worker now lease_ms (id ∷ ids) d =
    elim (Option-cases (rename queued claimed id d)) [
      | inl e ↦ rw (e, claim_from) (claim_from-done worker now lease_ms ids d)
      | inr (d', e) ↦ elim (Option-cases (read_gig claimed id d')) [
        | inl e' ↦
            rw (e, claim_from, e', claim_from)
              (claim_from-done worker now lease_ms ids d' ∙ rename_claim-done id d d' e)
        | inr (g, e') ↦ rw (e, claim_from, e', claim_from) (rename_claim-done id d d' e)
      ]
    ]

reap-done : (now : ℕ) (d : Disk) → (reap now d).1.done_dir ≡ d.done_dir
unfolding reap
reap-done now d = reap_from-done now (keys d.claimed_dir) _

claim-done :
    (worker : String) (now lease_ms : ℕ) (d : Disk)
    → (claim worker now lease_ms d).1.done_dir ≡ d.done_dir
unfolding claim
claim-done worker now lease_ms d =
    claim_from-done worker now lease_ms (sorted (keys d.queued_dir)) d

-- A file that is in done/ alone is found there.
locate-done :
    (id : String) (f : File) (d : Disk)
    → copies d id ≤ 1
    → lookup id d.done_dir ≡ some f
    → locate id d ≡ some done
unfolding locate copies
locate-done id f d h there = ground arith

-- Completing another gig leaves a row of done/ as it was.
seal_row-done_ne :
    (worker sha id j : String) (output : Json) (p : Place) (g : StoredGig) (d : Disk)
    → (id == j) ≡ false
    → may_complete worker p g ≡ true
    → lookup j (after d (seal_row sha output p id g d)).done_dir ≡ lookup j d.done_dir
unfolding seal_row atomic_write rename
seal_row-done_ne worker sha id j output claimed g d ne may =
    elim (Option-cases (lookup id (put id (readable (sealed_with sha output g)) d.claimed_dir))) [
      | inl e ↦ ground arith
      | inr (f, e) ↦ ground (arith, lookup-put id j f d.done_dir)
    ]
seal_row-done_ne worker sha id j output done g d ne may =
    ground (arith, lookup-put id j (readable (sealed_with sha output g)) d.done_dir)
seal_row-done_ne worker sha id j output queued g d ne may = cc
seal_row-done_ne worker sha id j output parked g d ne may = cc
seal_row-done_ne worker sha id j output failed g d ne may = cc
seal_row-done_ne worker sha id j output cancelled g d ne may = cc

complete-done_ne :
    (seal : Json → String) (worker id j : String) (output : Json) (d : Disk)
    → (id == j) ≡ false
    → lookup j (after d (complete seal worker id output d)).done_dir ≡ lookup j d.done_dir
unfolding complete
complete-done_ne seal worker id j output d ne = elim (Option-cases (locate id d)) [
  | inl e ↦ rw (e, complete)
  | inr (p, e) ↦ elim (Option-cases (read_gig p id d)) [
    | inl e' ↦ rw (e, complete, e', complete)
    | inr (g, e') ↦ elim (Bool-cases (may_complete worker p g)) [
      | inl may ↦
          rw (e, complete, e', complete, may)
            (seal_row-done_ne worker (seal output) id j output p g d ne may)
      | inr bad ↦ rw (e, complete, e', complete, bad)
    ]
  ]
]

-- Completing a sealed row again changes nothing, whoever asks and with whatever output.
pub complete-sealed :
    (seal : Json → String) (worker id sha : String) (output : Json) (g : StoredGig) (d : Disk)
    → copies d id ≤ 1
    → read_gig done id d ≡ some g
    → g.content_sha ≡ some sha
    → complete seal worker id output d ≡ (
        if held_by worker g.lease
        then (if sha == seal output
            then ok (record { content_sha = seal output; duplicated = true }, d)
            else throw forked_result)
        else throw not_holder)
unfolding complete seal_row
complete-sealed seal worker id sha output g d h e s = rw (
  locate-done id (readable g) d h (read_gig-present done id d g e),
  complete,
  e,
  complete,
  s,
  seal_row,
)

-- A file of done/ is the gig's only one.
done_only :
    (id : String) (f : File) (d : Disk)
    → copies d id ≤ 1
    → lookup id d.done_dir ≡ some f
    → (lookup id d.queued_dir ≡ none) × (lookup id d.claimed_dir ≡ none)
unfolding copies
done_only id f d h there = ground arith

module _ (seal : Json → String) (lease_ms : ℕ) where
  -- No verb changes the row of a gig that is sealed in done/.
  sealed-step :
      (d : Disk) (now : ℕ) (v : Verb) (id sha : String) (g : StoredGig)
      → IsPlaced d
      → read_gig done id d ≡ some g
      → g.content_sha ≡ some sha
      → lookup id (step seal lease_ms d (now, v)).done_dir ≡ some (readable g)
  unfolding step
  sealed-step d now (enqueues args k) id sha g h e s =
      rw (enqueue-done args k now d) (read_gig-present done id d g e)
  sealed-step d now (claims worker) id sha g h e s =
      rw (claim-done worker now lease_ms d) (read_gig-present done id d g e)
  sealed-step d now (beats worker k) id sha g h e s =
      rw (heartbeat-done worker k now lease_ms d) (read_gig-present done id d g e)
  sealed-step d now reaps id sha g h e s = rw (reap-done now d) (read_gig-present done id d g e)
  sealed-step d now (parks worker k) id sha g h e s =
      rw (park-done worker k d) (read_gig-present done id d g e)
  sealed-step d now (approves k role verdict by) id sha g h e s =
      rw (approve-done k role verdict by d) (read_gig-present done id d g e)
  sealed-step d now (cancels k) id sha g h e s =
      rw (cancel-done k d) (read_gig-present done id d g e)
  sealed-step d now (fails worker k error) id sha g h e s =
      rw (fail-done worker k error d) (read_gig-present done id d g e)
  sealed-step d now (completes worker k output) id sha g h e s = elim (Bool-cases (k == id)) [
    | inr ne ↦ complete-done_ne seal worker k id output d ne ∙ read_gig-present done id d g e
    | inl same ↦
        rw ((eq_iff k id).0 same, complete-sealed seal worker id sha output g d (h.at id) e s)
          (ground (arith, read_gig-present done id d g e))
  ]

  -- After any history a gig that was sealed in done/ is there with the same row, and is neither
  -- queued nor claimed: no worker is handed it again.
  pub sealed-run :
      (d : Disk) (vs : List (ℕ × Verb)) (id sha : String) (g : StoredGig)
      → IsPlaced d
      → FreshRun seal lease_ms d vs
      → read_gig done id d ≡ some g
      → g.content_sha ≡ some sha
      → (read_gig done id (run seal lease_ms d vs) ≡ some g)
        × (lookup id (run seal lease_ms d vs).queued_dir ≡ none)
        × (lookup id (run seal lease_ms d vs).claimed_dir ≡ none)
  unfolding run read_gig
  sealed-run d [] id sha g h fresh e s =
      let only = done_only id (readable g) d (h.at id) (read_gig-present done id d g e) in
      (e, only.0, only.1)
  sealed-run d ((now, v) ∷ vs) id sha g h fresh e s =
      sealed-run (step seal lease_ms d (now, v)) vs id sha g
        (step-IsPlaced seal lease_ms d now v h fresh.0) fresh.1
        (ap parsed (sealed-step d now v id sha g h e s)) s
