-- ===== src/LocalQueue/Views.antt =====
-- src/local_queue.ts, `list`: one view for each file of each directory. A claimed row shows its
-- holder, a completed one the hash that it was sealed under; a torn file shows only its name.
use coltrane.Base.{
  ◌+◌, String, ◌≡◌, refl, Option, none, List, [], ◌∷◌, ◌++◌, Dict, length, length-append, arith,
}
use coltrane.LocalQueue.{
  Lease, File, readable, Place, queued, claimed, parked, done, failed, cancelled, Disk,
}

pub record LocalGigView : Type 0 where
  pub gig_id : String
  pub state : Place
  pub lease : Option Lease
  pub content_sha : Option String

abbrev bare : String → Place → LocalGigView
bare id state = record { gig_id = id; state = state; lease = none; content_sha = none }

abbrev view : Place → String → File → LocalGigView
view claimed id (readable g) = record (bare id claimed) { lease = g.lease }
view done id (readable g) = record (bare id done) { content_sha = g.content_sha }
view state id f = bare id state

views_of : Place → Dict File → List LocalGigView
views_of state [] = []
views_of state ((id, f) ∷ files) = view state id f ∷ views_of state files

list : Disk → List LocalGigView
unfolding views_of
list d =
    views_of queued d.queued_dir
    ++ views_of claimed d.claimed_dir
    ++ views_of parked d.parked_dir
    ++ views_of done d.done_dir
    ++ views_of failed d.failed_dir
    ++ views_of cancelled d.cancelled_dir

length-views_of : (state : Place) (files : Dict File) → length (views_of state files) ≡ length files
unfolding views_of
length-views_of state [] = refl
length-views_of state ((id, f) ∷ files) = omega (arith, length-views_of state files)

-- A listing leaves nothing out: it has as many views as there are files.
length-list :
    (d : Disk)
    → length (list d)
      ≡ length d.queued_dir
        + length d.claimed_dir
        + length d.parked_dir
        + length d.done_dir
        + length d.failed_dir
        + length d.cancelled_dir
unfolding list
length-list d =
    let q = views_of queued d.queued_dir in
    let c = views_of claimed d.claimed_dir in
    let p = views_of parked d.parked_dir in
    let n = views_of done d.done_dir in
    let f = views_of failed d.failed_dir in
    let x = views_of cancelled d.cancelled_dir in
    omega (
      arith,
      length-append (q ++ c ++ p ++ n ++ f) x,
      length-append (q ++ c ++ p ++ n) f,
      length-append (q ++ c ++ p) n,
      length-append (q ++ c) p,
      length-append q c,
      length-views_of queued d.queued_dir,
      length-views_of claimed d.claimed_dir,
      length-views_of parked d.parked_dir,
      length-views_of done d.done_dir,
      length-views_of failed d.failed_dir,
      length-views_of cancelled d.cancelled_dir,
    )
