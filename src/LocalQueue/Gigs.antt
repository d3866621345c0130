-- ===== src/LocalQueue/Gigs.antt =====
-- src/local_queue.ts: what a verb makes of the record of one gig, and the faults that a verb throws.
use coltrane.Base.{
  ℕ, ◌+◌, String, Bool, false, Option, none, some, [], leb, ◌==◌, Dict, lookup, put, or_else,
}
use coltrane.Base.Json.{Json, obj, end, text_or, text_or_null, number_or_null}
use coltrane.LocalQueue.Files.{StoredGig, Lease, Approval, Place, claimed, done}

pub data Fault : Type 0 where
  no_standard empty_verdict unknown_gig unreadable_gig not_holder forked_result : Fault

pub data Result {ℓ} (A : Type ℓ) : Type ℓ where
  ok : A → Result A
  throw : Fault → Result A

abbrev input_of : Option Json → Json
input_of (some (obj fs)) = obj fs
input_of _ = obj end

abbrev pub fresh_gig : Dict Json → String → String → ℕ → StoredGig
fresh_gig args slug id now = record {
  gig_id = id;
  standard_slug = slug;
  standard_version = number_or_null (lookup "standard_version" args);
  mode = text_or "live" (lookup "mode" args);
  input = input_of (lookup "input" args);
  acting_for = text_or "" (lookup "acting_for" args);
  venue = text_or_null (lookup "venue" args);
  enqueued_at = now;
  worker = none;
  lease = none;
  approvals = none;
  content_sha = none;
  error = none;
  output = none;
}

abbrev pub leased : String → ℕ → ℕ → StoredGig → StoredGig
leased holder now lease_ms g = record g {
  worker = some holder;
  lease = some (record { holder = holder; renewed_at = now; expires_at = now + lease_ms });
}

-- `record.lease?.holder === worker`
abbrev pub held_by : String → Option Lease → Bool
held_by worker none = false
held_by worker (some l) = l.holder == worker

-- `typeof expires === "number" && expires <= now`
abbrev pub lapsed : ℕ → StoredGig → Bool
lapsed now g = elim g.lease [ none ↦ false | some l ↦ leb l.expires_at now ]

-- `approvals[role] = entry`
abbrev pub approved : String → Approval → StoredGig → StoredGig
approved role entry g = record g { approvals = some (put role entry (or_else g.approvals [])) }

-- `delete record.lease; delete record.worker`
abbrev pub unleased : StoredGig → StoredGig
unleased g = record g { lease = none; worker = none }

abbrev pub sealed_with : String → Json → StoredGig → StoredGig
sealed_with sha output g = record g { content_sha = some sha; output = some output }

-- `holdsIt`: the holder of a claimed row, or of a row that it moved to done/.
abbrev pub may_complete : String → Place → StoredGig → Bool
may_complete worker claimed g = held_by worker g.lease
may_complete worker done g = held_by worker g.lease
may_complete worker _ g = false
