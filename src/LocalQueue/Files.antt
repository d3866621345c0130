-- ===== src/LocalQueue/Files.antt =====
-- The files of local_queue.ts: what one holds, the directory for each state, and the three file
-- system calls that the module is made of. Each call is atomic; a fault other than a missing file
-- is not modelled.
use coltrane.Base.{ℕ, String, Option, none, some, Dict, lookup, without, put}
use coltrane.Base.Json.{Json}

-- `LeaseState`
pub record Lease : Type 0 where
  pub holder : String
  pub renewed_at : ℕ
  pub expires_at : ℕ

pub record Approval : Type 0 where
  pub verdict : Json
  pub approved_by : Option String

pub record StoredGig : Type 0 where
  pub gig_id : String
  pub standard_slug : String
  pub standard_version : Option ℕ
  pub mode : String
  pub input : Json
  pub acting_for : String
  pub venue : Option String
  pub enqueued_at : ℕ
  pub worker : Option String
  pub lease : Option Lease
  pub approvals : Option (Dict Approval)
  pub content_sha : Option String
  pub error : Option String
  pub output : Option Json

-- What `JSON.parse` makes of a file's bytes.
pub data File : Type 0 where
  readable : StoredGig → File
  torn : File

-- `dirsByState`: a directory for each state that a view shows.
pub data Place : Type 0 where
  queued claimed parked done failed cancelled : Place

pub record Disk : Type 0 where
  pub queued_dir : Dict File
  pub claimed_dir : Dict File
  pub parked_dir : Dict File
  pub done_dir : Dict File
  pub failed_dir : Dict File
  pub cancelled_dir : Dict File

abbrev pub dir : Disk → Place → Dict File
dir d queued = d.queued_dir
dir d claimed = d.claimed_dir
dir d parked = d.parked_dir
dir d done = d.done_dir
dir d failed = d.failed_dir
dir d cancelled = d.cancelled_dir

abbrev with_dir : Disk → Place → Dict File → Disk
with_dir d queued m = record d { queued_dir = m }
with_dir d claimed m = record d { claimed_dir = m }
with_dir d parked m = record d { parked_dir = m }
with_dir d done m = record d { done_dir = m }
with_dir d failed m = record d { failed_dir = m }
with_dir d cancelled m = record d { cancelled_dir = m }

-- fsp.rename: `none` is ENOENT; a file of that name at the destination is replaced
unfoldable pub rename : Place → Place → String → Disk → Option Disk
rename p q id d = elim (lookup id (dir d p)) [
  | none ↦ none
  | some f ↦
      let taken = with_dir d p (without id (dir d p)) in
      some (with_dir taken q (put id f (dir taken q)))
]

-- atomicWrite: a temporary file renamed over the destination
unfoldable pub atomic_write : Place → String → StoredGig → Disk → Disk
atomic_write p id g d = with_dir d p (put id (readable g) (dir d p))

abbrev pub parsed : Option File → Option StoredGig
parsed (some (readable g)) = some g
parsed _ = none

unfoldable pub read_gig : Place → String → Disk → Option StoredGig
read_gig p id d = parsed (lookup id (dir d p))
