-- ===== src/GigTracker/Retention.antt =====
-- `pruneGigRuns` of src/gig_tracker.ts.
use coltrane.Base.{
  ℕ, zero, suc, ◌-◌, String, Bool, true, false, ◌||◌, some, List, [], ◌∷◌, ◌==◌, ◌≡◌, refl, sym,
  subst, ◌∙◌, Dict, lookup, lookup-without, without, any, Bool-cases, inl, inr, eq_iff, arith, leb,
  length, some-eq_some, true-false, keys, includes,
}
use coltrane.GigTracker.{
  GigRunState, running, is_running, settled, insert_run, sort_runs, take, delete_all,
  prune_gig_runs,
}

abbrev named : String → GigRunState → Bool
named id s = s.gig_id == id

any-take :
    (id : String) (n : ℕ) (xs : List GigRunState)
    → any (named id) (take n xs) ≡ true
    → any (named id) xs ≡ true
unfolding any take
any-take id zero xs h = cc
any-take id (suc n) [] h = cc
any-take id (suc n) (x ∷ xs) h = ground (arith, h, any-take id n xs)

any-insert_run :
    (id : String) (s : GigRunState) (ts : List GigRunState)
    → any (named id) (insert_run s ts) ≡ (named id s || any (named id) ts)
unfolding any insert_run
any-insert_run id s [] = refl
any-insert_run id s (t ∷ ts) = ground (arith, any-insert_run id s ts)

any-sort_runs :
    (id : String) (xs : List GigRunState) → any (named id) (sort_runs xs) ≡ any (named id) xs
unfolding any sort_runs
any-sort_runs id [] = refl
any-sort_runs id (x ∷ xs) = rw (any-insert_run id x (sort_runs xs), any-sort_runs id xs)

lookup-delete_all :
    (id : String) (drop : List GigRunState) (runs : Dict GigRunState)
    → any (named id) drop ≡ false
    → lookup id (delete_all drop runs) ≡ lookup id runs
unfolding any delete_all
lookup-delete_all id [] runs h = refl
lookup-delete_all id (s ∷ drop) runs h =
    lookup-delete_all id drop (without s.gig_id runs) (ground (arith, h))
    ∙ ground (arith, h, lookup-without s.gig_id id runs)

-- A map of runs by their own ids, each id once.
unfoldable pub ByGigId : Dict GigRunState → Type 0
ByGigId [] = Unit
ByGigId ((id, s) ∷ runs) = (s.gig_id ≡ id) × (includes id (keys runs) ≡ false) × ByGigId runs

settled-absent :
    (id : String) (runs : Dict GigRunState)
    → ByGigId runs
    → includes id (keys runs) ≡ false
    → any (named id) (settled runs) ≡ false
unfolding ByGigId settled any includes keys
settled-absent id [] h i = refl
settled-absent id ((k, t) ∷ runs) (e, fresh, h) i =
    let rest = settled-absent id runs h (ground (arith, i)) in
    elim (Bool-cases (is_running t.status)) [
      | inl b ↦ rw (b, rest)
      | inr b ↦ rw (b, rest, e) (ground (arith, i))
    ]

settled-named :
    (id : String) (runs : Dict GigRunState) (s : GigRunState)
    → ByGigId runs
    → lookup id runs ≡ some s
    → is_running s.status ≡ true
    → any (named id) (settled runs) ≡ false
unfolding ByGigId lookup settled any
settled-named id [] s h l r = refl
settled-named id ((k, t) ∷ runs) s (e, fresh, h) l r = elim (Bool-cases (k == id)) [
  | inl b ↦
      let same = some-eq_some (rw b at l) in
      let absent = subst (λ x. includes x (keys runs) ≡ false) ((eq_iff k id).0 b) fresh in
      rw (same, r, settled-absent id runs h absent)
  | inr b ↦
      let rest = settled-named id runs s h (rw b at l) r in
      elim (Bool-cases (is_running t.status)) [
        | inl c ↦ rw (c, rest)
        | inr c ↦ rw (c, rest, e) (ground (arith, b))
      ]
]

not_dropped :
    (id : String) (runs : Dict GigRunState) (n : ℕ) (s : GigRunState)
    → ByGigId runs
    → lookup id runs ≡ some s
    → is_running s.status ≡ true
    → any (named id) (take n (sort_runs (settled runs))) ≡ false
not_dropped id runs n s h l r =
    elim (Bool-cases (any (named id) (take n (sort_runs (settled runs))))) [
      | inl b ↦ true-false (
          sym (any-take id n (sort_runs (settled runs)) b)
          ∙ any-sort_runs id (settled runs)
          ∙ settled-named id runs s h l r)
      | inr b ↦ b
    ]

-- A running gig is never pruned: in a map of runs by their own ids, whatever the bound, a run that is
-- running is looked up as before.
pub prune-keeps_running :
    (runs : Dict GigRunState) (max : ℕ) (id : String) (s : GigRunState)
    → ByGigId runs
    → lookup id runs ≡ some s
    → s.status ≡ running
    → lookup id (prune_gig_runs runs max).0 ≡ some s
unfolding prune_gig_runs
prune-keeps_running runs max id s h l r =
    let old = settled runs in
    let drop = take (length old - max) (sort_runs old) in
    elim (Bool-cases (leb (length old) max)) [
      | inl b ↦ rw b l
      | inr b ↦
          rw b (
            lookup-delete_all id drop runs (not_dropped id runs (length old - max) s h l (rw r))
            ∙ l)
    ]
