-- ===== src/LocalQueue/Claims.antt =====
-- What `claim` hands out: a queued row, leased to the worker, and one if there is a readable one.
use coltrane.Base.{
  ℕ, String, ◌≡◌, ap, sym, ◌∙◌, true, false, none, some, List, [], ◌∷◌, arith, ◌==◌, eq_iff,
  eq_refl, lookup, lookup-without, keys, sorted, includes, if◌then◌else◌, Option-cases, Bool-cases,
  inl, inr, is_some, some-eq_some, ◌≢◌, includes-sorted, includes-keys,
}
use coltrane.LocalQueue.Copies.{claiming, rename-arrives, read_gig-present, read-atomic_write}
use coltrane.LocalQueue.{
  StoredGig, File, readable, Disk, queued, claimed, rename, atomic_write, read_gig, moved, leased,
  claim_from, claim,
}

-- A row went from queued/ to claimed/ with a lease of the worker.
pub record Took (worker : String) (now lease_ms : ℕ) (d d' : Disk) (g' : StoredGig) : Type 0 where
  pub id : String
  pub row : StoredGig
  pub was_queued : lookup id d.queued_dir ≡ some (readable row)
  pub is_leased : g' ≡ leased worker now lease_ms row
  pub is_claimed : read_gig claimed id d' ≡ some g'
  pub not_queued : lookup id d'.queued_dir ≡ none

rename-queued :
    (id j : String) (d d' : Disk)
    → rename queued claimed id d ≡ some d'
    → lookup j d'.queued_dir ≡ (if id == j then none else lookup j d.queued_dir)
unfolding rename
rename-queued id j d d' e = ground (arith, lookup-without id j d.queued_dir)

rename-gone :
    (id : String) (d d' : Disk)
    → lookup id d.queued_dir ≡ none
    → rename queued claimed id d ≢ some d'
unfolding rename
rename-gone id d d' gone = ground arith

rename-claimed :
    (id : String) (f : File) (d d' : Disk)
    → rename queued claimed id d ≡ some d'
    → lookup id d.queued_dir ≡ some f
    → lookup id d'.claimed_dir ≡ some f
rename-claimed id f d d' e there = rw (ap (moved d) e) at (rename-arrives claiming id f d there)

-- The row that a won rename made readable under claimed/ was queued.
won-queued :
    (id : String) (g : StoredGig) (d d' : Disk)
    → rename queued claimed id d ≡ some d'
    → read_gig claimed id d' ≡ some g
    → lookup id d.queued_dir ≡ some (readable g)
won-queued id g d d' e e' = elim (Option-cases (lookup id d.queued_dir)) [
  | inl gone ↦ absurd (rename-gone id d d' gone e)
  | inr (f, there) ↦
      there ∙ sym (rename-claimed id f d d' e there) ∙ read_gig-present claimed id d' g e'
]

claim_from-Took :
    (worker : String) (now lease_ms : ℕ) (ids : List String) (d : Disk) (g' : StoredGig)
    → (claim_from worker now lease_ms ids d).0 ≡ some g'
    → Took worker now lease_ms d (claim_from worker now lease_ms ids d).1 g'
unfolding claim_from atomic_write
claim_from-Took worker now lease_ms [] d g' h = cc
claim_from-Took worker now lease_ms (id ∷ ids) d g' h =
    elim (Option-cases (rename queued claimed id d)) [
      | inl e ↦
          rw (e, claim_from)
            (claim_from-Took worker now lease_ms ids d g' (rw (e, claim_from) at h))
      | inr (d', e) ↦ elim (Option-cases (read_gig claimed id d')) [
        | inl e' ↦
            let rest =
              claim_from-Took worker now lease_ms ids d' g'
                (rw (e, claim_from, e', claim_from) at h) in
            rw (e, claim_from, e', claim_from)
              (record {
                id = rest.id;
                row = rest.row;
                was_queued = ground (arith, rename-queued id rest.id d d' e, rest.was_queued);
                is_leased = rest.is_leased;
                is_claimed = rest.is_claimed;
                not_queued = rest.not_queued;
              })
        | inr (g, e') ↦
            let same : some (leased worker now lease_ms g) ≡ some g' =
              rw (e, claim_from, e', claim_from) at h in
            rw (e, claim_from, e', claim_from)
              (record {
                id = id;
                row = g;
                was_queued = won-queued id g d d' e e';
                is_leased = sym (some-eq_some same);
                is_claimed = read-atomic_write claimed id (leased worker now lease_ms g) d' ∙ same;
                not_queued = rename-queued id id d d' e ∙ rw (eq_refl id);
              })
      ]
    ]

-- What `claim` returns is a row that was queued, with a lease of the worker from now on; the row is
-- readable under claimed/ as it was returned, and is no longer queued.
claim-Took :
    (worker : String) (now lease_ms : ℕ) (d : Disk) (g' : StoredGig)
    → (claim worker now lease_ms d).0 ≡ some g'
    → Took worker now lease_ms d (claim worker now lease_ms d).1 g'
unfolding claim
claim-Took worker now lease_ms d g' h =
    claim_from-Took worker now lease_ms (sorted (keys d.queued_dir)) d g' h

rename-none :
    (id : String) (d : Disk) → rename queued claimed id d ≡ none → lookup id d.queued_dir ≡ none
unfolding rename
rename-none id d e = ground arith

-- A row that turned out torn is no readable one.
passed_over :
    (k id : String) (g : StoredGig) (d d' : Disk)
    → rename queued claimed k d ≡ some d'
    → read_gig claimed k d' ≡ none
    → lookup id d.queued_dir ≡ some (readable g)
    → (k == id) ≡ false
unfolding read_gig
passed_over k id g d d' e e' there = elim (Bool-cases (k == id)) [
  | inr other ↦ other
  | inl same ↦
      let at_k : lookup k d.queued_dir ≡ some (readable g) = rw ((eq_iff k id).0 same) there in
      cc (rename-claimed k (readable g) d d' e at_k)
]

-- With a readable row among its candidates the loop returns one.
claim_from-some :
    (worker : String) (now lease_ms : ℕ) (ids : List String) (d : Disk) (id : String)
    (g : StoredGig)
    → lookup id d.queued_dir ≡ some (readable g)
    → includes id ids ≡ true
    → is_some (claim_from worker now lease_ms ids d).0 ≡ true
unfolding claim_from includes
claim_from-some worker now lease_ms [] d id g there listed = cc
claim_from-some worker now lease_ms (k ∷ ids) d id g there listed =
    elim (Option-cases (rename queued claimed k d)) [
      | inl e ↦
          rw (e, claim_from)
            (claim_from-some worker now lease_ms ids d id g there
              (ground (arith, eq_iff k id, rename-none k d e)))
      | inr (d', e) ↦ elim (Option-cases (read_gig claimed k d')) [
        | inl e' ↦
            rw (e, claim_from, e', claim_from)
              (claim_from-some worker now lease_ms ids d' id g
                (rename-queued k id d d' e ∙ (rw (passed_over k id g d d' e e' there) there))
                (rw (passed_over k id g d d' e e' there) at listed))
        | inr (g', e') ↦ rw (e, claim_from, e', claim_from)
      ]
    ]

-- A worker is told that there is nothing only if no readable row is queued.
claim-some :
    (worker : String) (now lease_ms : ℕ) (d : Disk) (id : String) (g : StoredGig)
    → lookup id d.queued_dir ≡ some (readable g)
    → is_some (claim worker now lease_ms d).0 ≡ true
unfolding claim
claim-some worker now lease_ms d id g there =
    claim_from-some worker now lease_ms _ d id g there
      (includes-sorted id (keys d.queued_dir) ∙ includes-keys id d.queued_dir (readable g) there)
