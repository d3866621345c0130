-- ===== src/LocalQueue.antt =====
-- src/local_queue.ts: the file-backed gig queue. Each verb takes the disk and returns it, with the
-- clock's reading and the fresh UUID of `enqueue` as arguments; between two awaits of one verb no
-- other verb runs here (LocalQueue/Races.antt looks at what happens when one does).
mod Files
mod Gigs
mod Copies
mod Verbs
mod Conservation
mod Histories
mod Claims
mod Terminal
mod Leases
mod Races
mod Approvals
mod Backing
mod Sealing
mod Views
mod Tests
unfoldable pub use Files.*
unfoldable pub use Gigs.*
use coltrane.Base.{
  ℕ, ◌+◌, String, ◌≡◌, Bool, true, false, ◌&&◌, ◌||◌, Option, none, some, List, [], ◌∷◌, ◌++◌, leb,
  if◌then◌else◌, ◌==◌, Dict, lookup, put, keys, is_some, sorted,
}
use coltrane.Base.Json.{Json, obj, field, text_or}

pub enqueue : Dict Json → String → ℕ → Disk → Result (String × Disk)
enqueue args id now d =
    let slug = text_or "" (lookup "standard_slug" args) in
    if slug == ""
    then throw no_standard
    else ok (id, atomic_write queued id (fresh_gig args slug id now) d)

-- The loop over the candidates: a row that is gone or torn is passed over.
pub claim_from : String → ℕ → ℕ → List String → Disk → Option StoredGig × Disk
claim_from holder now lease_ms [] d = (none, d)
claim_from holder now lease_ms (id ∷ ids) d = elim (rename queued claimed id d) [
  | none ↦ claim_from holder now lease_ms ids d
  | some d' ↦ elim (read_gig claimed id d') [
    | none ↦ claim_from holder now lease_ms ids d'
    | some g ↦ let g' = leased holder now lease_ms g in (some g', atomic_write claimed id g' d')
  ]
]

pub claim : String → ℕ → ℕ → Disk → Option StoredGig × Disk
claim holder now lease_ms d = claim_from holder now lease_ms (sorted (keys d.queued_dir)) d

-- A verb for the holder of a claimed row.
abbrev pub held_claim : String → String → Disk → Option StoredGig
held_claim worker id d = elim (read_gig claimed id d) [
  | none ↦ none
  | some g ↦ if held_by worker g.lease then some g else none
]

-- What `heartbeat` does once it has read its row, on the disk as it is by then.
abbrev pub renew : String → String → ℕ → ℕ → Option StoredGig → Disk → Bool × Disk
renew worker id now lease_ms none d = (false, d)
renew worker id now lease_ms (some g) d =
    (true, atomic_write claimed id (leased worker now lease_ms g) d)

pub heartbeat : String → String → ℕ → ℕ → Disk → Bool × Disk
heartbeat worker id now lease_ms d = renew worker id now lease_ms (held_claim worker id d) d

pub record Reaped : Type 0 where
  pub requeued : List String
  pub kept : ℕ
  pub errors : List String

abbrev pub moved : Disk → Option Disk → Disk
moved d none = d
moved d (some d') = d'

pub reap_one : ℕ → String → Reaped × Disk → Reaped × Disk
reap_one now id (r, d) = elim (read_gig claimed id d) [
  | none ↦ (record r { errors = r.errors ++ id ∷ [] }, d)
  | some g ↦
      if lapsed now g
      then (record r { requeued = r.requeued ++ id ∷ [] }, moved d (rename claimed queued id d))
      else (record r { kept = r.kept + 1 }, d)
]

pub reap_from : ℕ → List String → Reaped × Disk → Reaped × Disk
reap_from now [] s = s
reap_from now (id ∷ ids) s = reap_from now ids (reap_one now id s)

pub reap : ℕ → Disk → Reaped × Disk
reap now d = reap_from now (keys d.claimed_dir) (record { requeued = []; kept = 0; errors = [] }, d)

pub park : String → String → Disk → Bool × Disk
park worker id d = elim (held_claim worker id d) [
  | none ↦ (false, d)
  | some g ↦ (true, atomic_write parked id (unleased g) (moved d (rename claimed parked id d)))
]

-- `!isRecord(verdict) || Object.keys(verdict).length === 0`
abbrev pub is_empty_verdict : Json → Bool
is_empty_verdict (obj (field k v fs)) = false
is_empty_verdict _ = true

pub approve : String → String → Json → Option String → Disk → Result (Bool × Disk)
approve id role verdict approved_by d =
    if is_empty_verdict verdict
    then throw empty_verdict
    else ok (elim (read_gig parked id d) [
      | none ↦ (false, d)
      | some g ↦
          let entry : Approval = record { verdict = verdict; approved_by = approved_by } in
          let d' = atomic_write parked id (approved role entry g) d in
          (true, moved d' (rename parked queued id d'))
    ])

pub cancel : String → Disk → String × Disk
cancel id d = (id, moved d (rename queued cancelled id d))

-- The first directory that holds the file.
pub locate : String → Disk → Option Place
locate id d =
    if is_some (lookup id d.queued_dir)
    then some queued
    else if is_some (lookup id d.claimed_dir)
    then some claimed
    else if is_some (lookup id d.parked_dir)
    then some parked
    else if is_some (lookup id d.done_dir)
    then some done
    else if is_some (lookup id d.failed_dir)
    then some failed
    else if is_some (lookup id d.cancelled_dir)
    then some cancelled
    else none

pub record Sealed : Type 0 where
  pub content_sha : String
  pub duplicated : Bool

-- `if (loc.dir !== doneDir) await fsp.rename(join(loc.dir, gig_id), join(doneDir, gig_id))`
abbrev pub to_done : Place → String → Disk → Disk
to_done done id d = d
to_done p id d = moved d (rename p done id d)

pub seal_row : String → Json → Place → String → StoredGig → Disk → Result (Sealed × Disk)
seal_row sha output p id g d = elim g.content_sha [
  | some old ↦
      if old == sha
      then ok (record { content_sha = sha; duplicated = true }, d)
      else throw forked_result
  | none ↦ ok (
    record { content_sha = sha; duplicated = false },
    to_done p id (atomic_write p id (sealed_with sha output g) d),
  )
]

-- `sha` is `sha256Hex(canonJson(output))`.
pub complete : (Json → String) → String → String → Json → Disk → Result (Sealed × Disk)
complete seal worker id output d = elim (locate id d) [
  | none ↦ throw unknown_gig
  | some p ↦ elim (read_gig p id d) [
    | none ↦ throw unreadable_gig
    | some g ↦
        if may_complete worker p g then seal_row (seal output) output p id g d else throw not_holder
  ]
]

pub fail : String → String → String → Disk → Bool × Disk
fail worker id error d = elim (held_claim worker id d) [
  | none ↦ (false, d)
  | some g ↦
      let d' = atomic_write claimed id (record g { error = some error }) d in
      (true, moved d' (rename claimed failed id d'))
]
