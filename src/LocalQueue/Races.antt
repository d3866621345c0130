-- ===== src/LocalQueue/Races.antt =====
-- src/local_queue.ts, looked at between two awaits: the reaper runs after a verb has read its row
-- under claimed/ and before it writes the row back there.
use coltrane.Base.{ℕ, String, ◌≡◌, none, some}
use coltrane.LocalQueue.{StoredGig, readable, Disk, queued, claimed, rename, read_gig, moved, reap}
use coltrane.LocalQueue.Copies.{read_gig-present, claiming, rename-arrives}
use coltrane.LocalQueue.Leases.{reap-lookup}

-- A claimer that stops between its rename and the write of its lease leaves a row of a new gig under
-- claimed/ with no lease, and no later run of the reaper returns it.
unleased_claim_stays :
    (id : String) (later : ℕ) (g : StoredGig) (d : Disk)
    → read_gig queued id d ≡ some g
    → g.lease ≡ none
    → read_gig claimed id (reap later (moved d (rename queued claimed id d))).1 ≡ some g
unfolding read_gig
unleased_claim_stays id later g d e no_lease =
    let there = rename-arrives claiming id (readable g) d (read_gig-present queued id d g e) in
    rw ((reap-lookup later (moved d (rename queued claimed id d)) id).0, there) (rw no_lease)
