-- ===== src/Ledger/Split.antt =====
-- `SplitLedger` of src/ledger.ts behaves as one ledger.
use mathlib.Core.List.{Permᴰ}
use coltrane.Base.{
  keep-last, keep-keep, keep-parts, keep_comm, perm-length, same_perm, ◌+◌, String, Bool, true,
  false, not, ◌≡◌, refl, sym, ap, ◌∙◌, subst, ◌⊎◌, inl, inr, Option, List, [], ◌∷◌, ◌++◌, ◌==◌,
  eq_iff, keep, includes, length, arith, if◌then◌else◌, Bool-cases, Option-cases, true-false,
}
use coltrane.Base.Json.{Json, Fields}
use coltrane.Ledger.{
  kind_of, validate_entry, LedgerError, LedgerQuery, Ledger, matches, memory_append, memory_ledger,
  beside, kept, split_append, split_query, split_integrity, split_ledger, append_all,
}

abbrev is_genome : Fields → Bool
is_genome e = kind_of e == "genome_mutation"

-- Those of the genome, and then the others
abbrev pub genome_first : List Fields → List Fields
genome_first rows = keep is_genome rows ++ keep (λ e. not (is_genome e)) rows

-- The two halves of a list of entries
abbrev halves : List Fields → List Fields × List Fields
halves rows = (keep is_genome rows, keep (λ e. not (is_genome e)) rows)

abbrev gig_kinds : List String
gig_kinds = "gig" ∷ "governance" ∷ "chair_spend" ∷ []

abbrev kinds : List String
kinds = "gig" ∷ "genome_mutation" ∷ "governance" ∷ "chair_spend" ∷ []

kind-given : (k : String) → includes k gig_kinds ≡ true → (k == "") ≡ false
unfolding includes
kind-given k h = elim (Bool-cases (k == "")) [
  | inl e ↦ true-false (sym h ∙ ap (λ j. includes j gig_kinds) ((eq_iff k "").0 e))
  | inr e ↦ e
]

gig_kinds-kinds : (k : String) → includes k gig_kinds ≡ true → includes k kinds ≡ true
unfolding includes
gig_kinds-kinds k h = ground (arith, h)

kinds-gig_kinds :
    (k : String)
    → includes k kinds ≡ true
    → (k == "genome_mutation") ≡ false
    → includes k gig_kinds ≡ true
unfolding includes
kinds-gig_kinds k h g = ground (arith, h, g, eq_iff k "genome_mutation", eq_iff "genome_mutation" k)

halves-length : (rows : List Fields) → length (halves rows).0 + length (halves rows).1 ≡ length rows
unfolding keep
halves-length [] = omega arith
halves-length (e ∷ rows) = let more = halves-length rows in ground (arith, more)

last-halves :
    (e : Fields) (rows : List Fields) (b : Bool)
    → is_genome e ≡ b
    → (if b
        then ((halves rows).0 ++ e ∷ [], (halves rows).1)
        else ((halves rows).0, (halves rows).1 ++ e ∷ []))
      ≡ halves (rows ++ e ∷ [])
last-halves e rows true g = λ i. (
  sym (keep-last is_genome true rows e g) i,
  sym (keep-last (λ x. not (is_genome x)) false rows e (ap not g)) i,
)
last-halves e rows false g = λ i. (
  sym (keep-last is_genome false rows e g) i,
  sym (keep-last (λ x. not (is_genome x)) true rows e (ap not g)) i,
)

module _ (shown : Option Json → String) where
  abbrev one : Ledger (List Fields)
  one = memory_ledger shown

  append-halves :
      (e : Fields) (rows : List Fields)
      → split_append one one e (halves rows) ≡ beside halves (memory_append shown e rows)
  unfolding split_append memory_ledger memory_append
  append-halves e rows = elim (Bool-cases (is_genome e)) [
    | inl g ↦ elim (Option-cases (validate_entry e)) [
      | inr (why, bad) ↦ rw (g, bad) refl
      | inl good ↦ rw (g, good) (ap inr (last-halves e rows true g))
    ]
    | inr g ↦ elim (Option-cases (validate_entry e)) [
      | inr (why, bad) ↦ rw (g, bad) refl
      | inl good ↦ rw (g, good) (ap inr (last-halves e rows false g))
    ]
  ]

  kept-halves :
      (rows : List Fields) (r : LedgerError ⊎ List Fields)
      → kept (halves rows) (beside halves r) ≡ halves (kept rows r)
  kept-halves rows (inl why) = refl
  kept-halves rows (inr rows') = refl

  append_all-halves :
      (es rows : List Fields)
      → append_all (split_ledger one one) es (halves rows) ≡ halves (append_all one es rows)
  unfolding append_all split_ledger memory_ledger
  append_all-halves [] rows = refl
  append_all-halves (e ∷ es) rows =
      ap (append_all (split_ledger one one) es) (
        ap (kept (halves rows)) (append-halves e rows)
        ∙ kept-halves rows (memory_append shown e rows))
      ∙ append_all-halves es (kept rows (memory_append shown e rows))

  matches-kind :
      (q : LedgerQuery) (e : Fields)
      → (q.kind == "") ≡ false
      → matches shown q e ≡ true
      → kind_of e ≡ q.kind
  unfolding matches
  matches-kind q e ne h = (eq_iff (kind_of e) q.kind).0 (ground (arith, ne, h))

  genome_query :
      (q : LedgerQuery) (rows : List Fields)
      → (q.kind == "genome_mutation") ≡ true
      → split_query one one q (halves rows) ≡ keep (matches shown q) rows
  unfolding split_query memory_ledger
  genome_query q rows g =
      let kind = (eq_iff q.kind "genome_mutation").0 g in
      let given = ap (λ k. k == "") kind in
      rw g (
        keep-keep is_genome (matches shown q) rows
          (λ e h. (eq_iff (kind_of e) "genome_mutation").1 (matches-kind q e given h ∙ kind)))

  gig_query :
      (q : LedgerQuery) (rows : List Fields)
      → (q.kind == "genome_mutation") ≡ false
      → includes q.kind gig_kinds ≡ true
      → split_query one one q (halves rows) ≡ keep (matches shown q) rows
  unfolding split_query memory_ledger
  gig_query q rows g r =
      rw (g, r)
        (keep-keep (λ e. not (is_genome e)) (matches shown q) rows
          (λ e h.
            ap not
              (ap (λ k. k == "genome_mutation") (matches-kind q e (kind-given q.kind r) h) ∙ g)))

  both_parts :
      (m : Fields → Bool) (rows : List Fields)
      → keep m (halves rows).0 ++ keep m (halves rows).1 ≡ genome_first (keep m rows)
  both_parts m rows =
      λ i. keep_comm is_genome m rows i ++ keep_comm (λ e. not (is_genome e)) m rows i

  -- A query of both halves answers as the query of the whole.
  split_query-halves :
      (q : LedgerQuery) (rows : List Fields)
      → Permᴰ (split_query one one q (halves rows)) (keep (matches shown q) rows)
        × (includes q.kind kinds ≡ true
            → split_query one one q (halves rows) ≡ keep (matches shown q) rows)
        × (includes q.kind kinds ≡ false
            → split_query one one q (halves rows) ≡ genome_first (keep (matches shown q) rows))
  unfolding split_query memory_ledger includes
  split_query-halves q rows = elim (Bool-cases (q.kind == "genome_mutation")) [
    | inl g ↦ (
      same_perm (genome_query q rows g),
      λ k. genome_query q rows g,
      λ k.
          true-false (sym (ap (λ j. includes j kinds) ((eq_iff q.kind "genome_mutation").0 g)) ∙ k),
    )
    | inr g ↦ elim (Bool-cases (includes q.kind gig_kinds)) [
      | inl r ↦ (
        same_perm (gig_query q rows g r),
        λ k. gig_query q rows g r,
        λ k. true-false (sym (gig_kinds-kinds q.kind r) ∙ k),
      )
      | inr r ↦ (
        rw (g, r) (keep-parts is_genome (matches shown q) rows),
        λ k. true-false (sym (kinds-gig_kinds q.kind k g) ∙ r),
        λ k. rw (g, r) (both_parts (matches shown q) rows),
      )
    ]
  ]

  -- However entries are appended, some of them refused, a SplitLedger over two ledgers in memory answers as one
  -- such ledger: a query of one of the four kinds finds the same entries in the same order, any other query
  -- those of the genome, in their order, and then the others in theirs, which are together the same entries;
  -- the counts are equal, and so are the numbers of entries reported.
  pub split_ledger_refines :
      (es : List Fields) (q : LedgerQuery)
      → let split = append_all (split_ledger one one) es ([], []) in
        let whole = append_all one es [] in
        let two = split_ledger one one in
        Permᴰ (two.query q split) (one.query q whole)
        × (includes q.kind kinds ≡ true → two.query q split ≡ one.query q whole)
        × (includes q.kind kinds ≡ false → two.query q split ≡ genome_first (one.query q whole))
        × (two.count q split ≡ one.count q whole)
        × ((two.integrity split).entries ≡ (one.integrity whole).entries)
  unfolding split_ledger split_integrity memory_ledger keep
  split_ledger_refines es q =
      let same = append_all-halves es [] in
      let rows = append_all one es [] in
      let (perm, equal, parted) = split_query-halves q rows in
      subst
        (λ split.
          Permᴰ (split_query one one q split) (keep (matches shown q) rows)
          × (includes q.kind kinds ≡ true
              → split_query one one q split ≡ keep (matches shown q) rows)
          × (includes q.kind kinds ≡ false
              → split_query one one q split ≡ genome_first (keep (matches shown q) rows))
          × (length (split_query one one q split) ≡ length (keep (matches shown q) rows))
          × (length split.0 + length split.1 ≡ length rows))
        (sym same) (perm, equal, parted, perm-length perm, halves-length rows)
