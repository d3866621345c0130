-- ===== src/LocalQueue/Copies.antt =====
-- Where a gig's file is: how many directories hold it, and what each file system call and each verb
-- makes of that number.
use coltrane.Base.{
  ℕ, ◌+◌, ◌≤◌, String, ◌≡◌, refl, ◌∙◌, Option, none, some, arith, eq_iff, eq_refl, lookup,
  lookup-without, lookup-put, Option-cases, inl, inr,
}
use coltrane.LocalQueue.{
  StoredGig, File, readable, Disk, Place, queued, claimed, parked, done, failed, cancelled, dir,
  rename, atomic_write, read_gig, moved,
}

abbrev pub present : Option File → ℕ
present none = 0
present (some f) = 1

unfoldable pub copies : Disk → String → ℕ
copies d id =
    present (lookup id d.queued_dir)
    + present (lookup id d.claimed_dir)
    + present (lookup id d.parked_dir)
    + present (lookup id d.done_dir)
    + present (lookup id d.failed_dir)
    + present (lookup id d.cancelled_dir)

-- A readable file was there.
pub read_gig-present :
    (p : Place) (id : String) (d : Disk) (g : StoredGig)
    → read_gig p id d ≡ some g
    → lookup id (dir d p) ≡ some (readable g)
unfolding read_gig
read_gig-present p id d g h = ground arith

-- Writing over a file keeps the number.
copies-atomic_write :
    (p : Place) (id j : String) (g : StoredGig) (d : Disk)
    → present (lookup id (dir d p)) ≡ 1
    → copies (atomic_write p id g d) j ≡ copies d j
unfolding copies atomic_write
copies-atomic_write queued id j g d h =
    ground (arith, lookup-put id j (readable g) d.queued_dir, eq_iff id j)
copies-atomic_write claimed id j g d h =
    ground (arith, lookup-put id j (readable g) d.claimed_dir, eq_iff id j)
copies-atomic_write parked id j g d h =
    ground (arith, lookup-put id j (readable g) d.parked_dir, eq_iff id j)
copies-atomic_write done id j g d h =
    ground (arith, lookup-put id j (readable g) d.done_dir, eq_iff id j)
copies-atomic_write failed id j g d h =
    ground (arith, lookup-put id j (readable g) d.failed_dir, eq_iff id j)
copies-atomic_write cancelled id j g d h =
    ground (arith, lookup-put id j (readable g) d.cancelled_dir, eq_iff id j)

-- The renames that the module makes.
pub data Move : Place → Place → Type 0 where
  claiming : Move queued claimed
  requeueing : Move claimed queued
  parking : Move claimed parked
  approving : Move parked queued
  cancelling : Move queued cancelled
  completing : Move claimed done
  failing : Move claimed failed

-- A rename moves the one copy: no number changes.
copies-rename :
    {p q : Place} (move : Move p q) (id j : String) (d : Disk)
    → copies d id ≤ 1
    → copies (moved d (rename p q id d)) j ≡ copies d j
unfolding copies rename
copies-rename claiming id j d h = elim (Option-cases (lookup id d.queued_dir)) [
  | inl e ↦ rw (e, rename)
  | inr (f, e) ↦
      rw (e, rename)
        (ground
          (arith, lookup-without id j d.queued_dir, lookup-put id j f d.claimed_dir, eq_iff id j))
]
copies-rename requeueing id j d h = elim (Option-cases (lookup id d.claimed_dir)) [
  | inl e ↦ rw (e, rename)
  | inr (f, e) ↦
      rw (e, rename)
        (ground
          (arith, lookup-without id j d.claimed_dir, lookup-put id j f d.queued_dir, eq_iff id j))
]
copies-rename parking id j d h = elim (Option-cases (lookup id d.claimed_dir)) [
  | inl e ↦ rw (e, rename)
  | inr (f, e) ↦
      rw (e, rename)
        (ground
          (arith, lookup-without id j d.claimed_dir, lookup-put id j f d.parked_dir, eq_iff id j))
]
copies-rename approving id j d h = elim (Option-cases (lookup id d.parked_dir)) [
  | inl e ↦ rw (e, rename)
  | inr (f, e) ↦
      rw (e, rename)
        (ground
          (arith, lookup-without id j d.parked_dir, lookup-put id j f d.queued_dir, eq_iff id j))
]
copies-rename cancelling id j d h = elim (Option-cases (lookup id d.queued_dir)) [
  | inl e ↦ rw (e, rename)
  | inr (f, e) ↦
      rw (e, rename)
        (ground
          (arith, lookup-without id j d.queued_dir, lookup-put id j f d.cancelled_dir, eq_iff id j))
]
copies-rename completing id j d h = elim (Option-cases (lookup id d.claimed_dir)) [
  | inl e ↦ rw (e, rename)
  | inr (f, e) ↦
      rw (e, rename)
        (ground
          (arith, lookup-without id j d.claimed_dir, lookup-put id j f d.done_dir, eq_iff id j))
]
copies-rename failing id j d h = elim (Option-cases (lookup id d.claimed_dir)) [
  | inl e ↦ rw (e, rename)
  | inr (f, e) ↦
      rw (e, rename)
        (ground
          (arith, lookup-without id j d.claimed_dir, lookup-put id j f d.failed_dir, eq_iff id j))
]

-- What was at the source is at the destination.
pub rename-arrives :
    {p q : Place} (move : Move p q) (id : String) (f : File) (d : Disk)
    → lookup id (dir d p) ≡ some f
    → lookup id (dir (moved d (rename p q id d)) q) ≡ some f
unfolding rename
rename-arrives claiming id f d h =
    rw (h, rename) (rw (lookup-put id id f d.claimed_dir) (rw (eq_refl id)))
rename-arrives requeueing id f d h =
    rw (h, rename) (rw (lookup-put id id f d.queued_dir) (rw (eq_refl id)))
rename-arrives parking id f d h =
    rw (h, rename) (rw (lookup-put id id f d.parked_dir) (rw (eq_refl id)))
rename-arrives approving id f d h =
    rw (h, rename) (rw (lookup-put id id f d.queued_dir) (rw (eq_refl id)))
rename-arrives cancelling id f d h =
    rw (h, rename) (rw (lookup-put id id f d.cancelled_dir) (rw (eq_refl id)))
rename-arrives completing id f d h =
    rw (h, rename) (rw (lookup-put id id f d.done_dir) (rw (eq_refl id)))
rename-arrives failing id f d h =
    rw (h, rename) (rw (lookup-put id id f d.failed_dir) (rw (eq_refl id)))

-- Nothing of that name is left at the source.
pub rename-leaves :
    {p q : Place} (move : Move p q) (id : String) (d : Disk)
    → lookup id (dir (moved d (rename p q id d)) p) ≡ none
unfolding rename
rename-leaves claiming id d = elim (Option-cases (lookup id d.queued_dir)) [
  | inl e ↦ rw (e, rename) e
  | inr (f, e) ↦ rw (e, rename) (rw (lookup-without id id d.queued_dir) (rw (eq_refl id)))
]
rename-leaves requeueing id d = elim (Option-cases (lookup id d.claimed_dir)) [
  | inl e ↦ rw (e, rename) e
  | inr (f, e) ↦ rw (e, rename) (rw (lookup-without id id d.claimed_dir) (rw (eq_refl id)))
]
rename-leaves parking id d = elim (Option-cases (lookup id d.claimed_dir)) [
  | inl e ↦ rw (e, rename) e
  | inr (f, e) ↦ rw (e, rename) (rw (lookup-without id id d.claimed_dir) (rw (eq_refl id)))
]
rename-leaves approving id d = elim (Option-cases (lookup id d.parked_dir)) [
  | inl e ↦ rw (e, rename) e
  | inr (f, e) ↦ rw (e, rename) (rw (lookup-without id id d.parked_dir) (rw (eq_refl id)))
]
rename-leaves cancelling id d = elim (Option-cases (lookup id d.queued_dir)) [
  | inl e ↦ rw (e, rename) e
  | inr (f, e) ↦ rw (e, rename) (rw (lookup-without id id d.queued_dir) (rw (eq_refl id)))
]
rename-leaves completing id d = elim (Option-cases (lookup id d.claimed_dir)) [
  | inl e ↦ rw (e, rename) e
  | inr (f, e) ↦ rw (e, rename) (rw (lookup-without id id d.claimed_dir) (rw (eq_refl id)))
]
rename-leaves failing id d = elim (Option-cases (lookup id d.claimed_dir)) [
  | inl e ↦ rw (e, rename) e
  | inr (f, e) ↦ rw (e, rename) (rw (lookup-without id id d.claimed_dir) (rw (eq_refl id)))
]

-- What was written is read.
pub read-atomic_write :
    (p : Place) (id : String) (g : StoredGig) (d : Disk)
    → read_gig p id (atomic_write p id g d) ≡ some g
unfolding read_gig atomic_write
read-atomic_write queued id g d = rw (lookup-put id id (readable g) d.queued_dir) (rw (eq_refl id))
read-atomic_write claimed id g d =
    rw (lookup-put id id (readable g) d.claimed_dir) (rw (eq_refl id))
read-atomic_write parked id g d = rw (lookup-put id id (readable g) d.parked_dir) (rw (eq_refl id))
read-atomic_write done id g d = rw (lookup-put id id (readable g) d.done_dir) (rw (eq_refl id))
read-atomic_write failed id g d = rw (lookup-put id id (readable g) d.failed_dir) (rw (eq_refl id))
read-atomic_write cancelled id g d =
    rw (lookup-put id id (readable g) d.cancelled_dir) (rw (eq_refl id))

-- No gig has more files, or fewer.
pub record SameCopies (d d' : Disk) : Type 0 where
  pub at : (j : String) → copies d' j ≡ copies d j

-- Every gig is in one directory at most.
pub record IsPlaced (d : Disk) : Type 0 where
  pub at : (j : String) → copies d j ≤ 1

pub SameCopies-refl : (d : Disk) → SameCopies d d
SameCopies-refl d = record { at = λ j. refl }

pub SameCopies-trans : {a b c : Disk} → SameCopies a b → SameCopies b c → SameCopies a c
SameCopies-trans f g = record { at = λ j. g.at j ∙ f.at j }

pub SameCopies-IsPlaced : {a b : Disk} → SameCopies a b → IsPlaced a → IsPlaced b
SameCopies-IsPlaced f h = record { at = λ j. omega (arith, f.at j, h.at j) }

-- A verb that rewrites a readable file where it is.
pub rewrite-SameCopies :
    (p : Place) (id : String) (g g' : StoredGig) (d : Disk)
    → read_gig p id d ≡ some g
    → SameCopies d (atomic_write p id g' d)
rewrite-SameCopies p id g g' d h = record {
  at = λ j. copies-atomic_write p id j g' d (rw (read_gig-present p id d g h) refl);
}

pub rename-SameCopies :
    {p q : Place} (move : Move p q) (id : String) (d : Disk)
    → IsPlaced d
    → SameCopies d (moved d (rename p q id d))
rename-SameCopies move id d h = record { at = λ j. copies-rename move id j d (h.at id) }
