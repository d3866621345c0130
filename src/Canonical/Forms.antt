-- ===== src/Canonical/Forms.antt =====
-- Two values have one canonical form exactly when they state the same.
use coltrane.Base.{
  String, ◌≡◌, refl, sym, ap, ◌∙◌, ◌↔◌, inl, inr, false, some, [], ◌∷◌, ◌==◌, eq_iff, eq_refl,
  arith, Dict, lookup, keys, Unique, includes, sort_keys, lookup-sort_keys, sort_keys_ext,
  Option-cases, Bool-cases, some-eq_some, subst, true-false, includes-keys,
}
use coltrane.Base.Json.{
  Json, Items, Fields, null, bool, num, str, arr, obj, nil, cons, end, field, entries,
}
use coltrane.Canonical.{is_excluded, of_entries, strip_and_sort_keys, strip_items, strip_fields}
use coltrane.Canonical.Facts.{
  IsJson, AreJson, HaveJson, OnlyKeys, SameFacts, SameItems, Covers, kept, lookup-strip_fields,
  includes-strip_fields,
}

-- Objects whose values agree, where both state a key, hold the same when they are stripped.
same_lookups :
    (fs gs : Fields)
    → ((k : String) (v : Json)
        → is_excluded k ≡ false
        → lookup k (entries fs) ≡ some v
        → (w : Json) × (lookup k (entries gs) ≡ some w)
          × (strip_and_sort_keys v ≡ strip_and_sort_keys w))
    → OnlyKeys gs fs
    → (k : String) → lookup k (strip_fields fs) ≡ lookup k (strip_fields gs)
same_lookups fs gs c o k =
    rw (lookup-strip_fields k fs, lookup-strip_fields k gs)
      (elim (Bool-cases (is_excluded k)) [
        | inl e ↦ rw e
        | inr e ↦ rw e (elim (Option-cases (lookup k (entries fs))) [
          | inl l ↦ elim (Option-cases (lookup k (entries gs))) [
            | inl m ↦ rw (l, m)
            | inr (w, m) ↦ let found = o k w e m in ground (arith, l, found.1)
          ]
          | inr (v, l) ↦ let found = c k v e l in rw (l, found.1) (ap some found.2)
        ])
      ])

strip_fields-Unique : (fs : Fields) → Unique (keys (entries fs)) → Unique (keys (strip_fields fs))
unfolding Unique keys strip_fields
strip_fields-Unique end u = tt
strip_fields-Unique (field k v fs) (n, u) = elim (Bool-cases (is_excluded k)) [
  | inl e ↦ rw e (strip_fields-Unique fs u)
  | inr e ↦ rw e (includes-strip_fields k fs n, strip_fields-Unique fs u)
]

HaveJson-lookup :
    (k : String) (fs : Fields) (v : Json) → HaveJson fs → lookup k (entries fs) ≡ some v → IsJson v
unfolding HaveJson lookup
HaveJson-lookup k end v h e = cc
HaveJson-lookup k (field j w fs) v (h, hs) e = elim (Bool-cases (j == k)) [
  | inl b ↦ subst IsJson (some-eq_some (rw b at e)) h
  | inr b ↦ HaveJson-lookup k fs v hs (rw b at e)
]

-- Values that state the same have one canonical form.
mutual
  unfolding SameFacts SameItems Covers IsJson AreJson HaveJson strip_and_sort_keys strip_items
      lookup

  same-strip :
      (v w : Json)
      → IsJson v
      → IsJson w
      → SameFacts v w
      → strip_and_sort_keys v ≡ strip_and_sort_keys w
  same-strip null w i j s = rw s
  same-strip (bool b) w i j s = rw s
  same-strip (num n) w i j s = rw s
  same-strip (str t) w i j s = rw s
  same-strip (arr xs) (arr ys) i j s = ap arr (same-strip_items xs ys i j s)
  same-strip (arr xs) null i j s = elim s [ ]
  same-strip (arr xs) (bool _) i j s = elim s [ ]
  same-strip (arr xs) (num _) i j s = elim s [ ]
  same-strip (arr xs) (str _) i j s = elim s [ ]
  same-strip (arr xs) (obj gs) i j s = elim s [ ]
  same-strip (obj fs) null i j s = elim s [ ]
  same-strip (obj fs) (bool _) i j s = elim s [ ]
  same-strip (obj fs) (num _) i j s = elim s [ ]
  same-strip (obj fs) (str _) i j s = elim s [ ]
  same-strip (obj fs) (arr ys) i j s = elim s [ ]
  same-strip (obj fs) (obj gs) i j s =
      ap (λ m. obj (of_entries m))
        (sort_keys_ext (strip_fields fs) (strip_fields gs) (strip_fields-Unique fs i.0)
          (strip_fields-Unique gs j.0)
          (same_lookups fs gs (λ k v e l. covered fs gs i.1 j.1 s.0 k v e l) s.1))

  same-strip_items :
      (xs ys : Items) → AreJson xs → AreJson ys → SameItems xs ys → strip_items xs ≡ strip_items ys
  same-strip_items nil nil i j s = refl
  same-strip_items nil (cons w ys) i j s = elim s [ ]
  same-strip_items (cons v xs) nil i j s = elim s [ ]
  same-strip_items (cons v xs) (cons w ys) i j s =
      λ n. cons (same-strip v w i.0 j.0 s.0 n) (same-strip_items xs ys i.1 j.1 s.1 n)

  covered :
      (fs gs : Fields)
      → HaveJson fs
      → HaveJson gs
      → Covers fs gs
      → (k : String) (v : Json) → is_excluded k ≡ false
      → lookup k (entries fs) ≡ some v
      → (w : Json) × (lookup k (entries gs) ≡ some w)
        × (strip_and_sort_keys v ≡ strip_and_sort_keys w)
  covered end gs i j s k u e l = cc
  covered (field m v fs) gs i j s k u e l = elim (Bool-cases (m == k)) [
    | inl b ↦ elim s.0 [
      | inl x ↦ true-false (sym x ∙ (ap is_excluded ((eq_iff m k).0 b) ∙ e))
      | inr (w, found, same) ↦ (
        w,
        ap (λ n. lookup n (entries gs)) (sym ((eq_iff m k).0 b)) ∙ found,
        ap strip_and_sort_keys (sym (some-eq_some (rw b at l)))
            ∙ same-strip v w i.0 (HaveJson-lookup m gs w j found) same,
      )
    ]
    | inr b ↦ covered fs gs i.1 j s.1 k u e (rw b at l)
  ]

lookup_in_tail :
    (k i : String) (v w : Json) (fs : Fields)
    → includes k (keys (entries fs)) ≡ false
    → lookup i (entries fs) ≡ some w
    → lookup i (entries (field k v fs)) ≡ some w
unfolding lookup
lookup_in_tail k i v w fs n l = elim (Bool-cases (k == i)) [
  | inl b ↦ true-false (
      sym (includes-keys i (entries fs) w l)
      ∙ (ap (λ j. includes j (keys (entries fs))) (sym ((eq_iff k i).0 b)) ∙ n))
  | inr b ↦ rw b l
]

pub of_entries_inj : (m n : Dict Json) → of_entries m ≡ of_entries n → m ≡ n
unfolding of_entries
of_entries_inj [] [] h = refl
of_entries_inj [] ((j, w) ∷ n) h = cc
of_entries_inj ((k, v) ∷ m) [] h = cc
of_entries_inj ((k, v) ∷ m) ((j, w) ∷ n) h =
    let rest : of_entries m ≡ of_entries n = cc in cc (of_entries_inj m n rest)

-- Objects with one canonical form hold the same under a key.
pub equal_lookups :
    (fs gs : Fields)
    → of_entries (sort_keys (strip_fields fs)) ≡ of_entries (sort_keys (strip_fields gs))
    → (k : String)
    → kept (is_excluded k) (lookup k (entries fs)) ≡ kept (is_excluded k) (lookup k (entries gs))
equal_lookups fs gs h k =
    sym (lookup-strip_fields k fs)
    ∙ (sym (lookup-sort_keys k (strip_fields fs))
        ∙ (ap (lookup k) (of_entries_inj _ _ h)
            ∙ (lookup-sort_keys k (strip_fields gs) ∙ lookup-strip_fields k gs)))

-- Objects with one canonical form have the same keys, excluded ones aside, and under each a value
-- of one canonical form.
matching :
    (fs gs : Fields)
    → strip_and_sort_keys (obj fs) ≡ strip_and_sort_keys (obj gs)
    → (k : String) (v : Json) → is_excluded k ≡ false
    → lookup k (entries fs) ≡ some v
    → (w : Json) × (lookup k (entries gs) ≡ some w)
      × (strip_and_sort_keys v ≡ strip_and_sort_keys w)
unfolding strip_and_sort_keys
matching fs gs h k v e l =
    let same = equal_lookups fs gs (cc) k in
    elim (Option-cases (lookup k (entries gs))) [
      | inl m ↦ ground (arith, same, e, l, m)
      | inr (w, m) ↦ (w, m, some-eq_some (ground (arith, same, e, l, m)))
    ]

-- Values with one canonical form state the same.
mutual
  unfolding SameFacts SameItems Covers Unique keys lookup IsJson AreJson HaveJson
      strip_and_sort_keys strip_items

  strip-same :
      (v w : Json)
      → IsJson v
      → IsJson w
      → strip_and_sort_keys v ≡ strip_and_sort_keys w
      → SameFacts v w
  strip-same null null i j h = refl
  strip-same null _ i j h = cc
  strip-same (bool b) (bool c) i j h = cc
  strip-same (bool b) _ i j h = cc
  strip-same (num m) (num n) i j h = cc
  strip-same (num m) _ i j h = cc
  strip-same (str s) (str t) i j h = cc
  strip-same (str s) _ i j h = cc
  strip-same (arr xs) (arr ys) i j h = strip-SameItems xs ys i j (cc)
  strip-same (arr xs) _ i j h = cc
  strip-same (obj fs) (obj gs) i j h = (
    strip-Covers fs gs i.1 j.1 i.0 (matching fs gs h),
    λ k w e l. let m = matching gs fs (sym h) k w e l in (m.0, m.1),
  )
  strip-same (obj fs) _ i j h = cc

  strip-Covers :
      (fs gs : Fields)
      → HaveJson fs
      → HaveJson gs
      → Unique (keys (entries fs))
      → ((k : String) (v : Json)
          → is_excluded k ≡ false
          → lookup k (entries fs) ≡ some v
          → (w : Json) × (lookup k (entries gs) ≡ some w)
            × (strip_and_sort_keys v ≡ strip_and_sort_keys w))
      → Covers fs gs
  strip-Covers end gs i j u h = tt
  strip-Covers (field k v fs) gs i j (n, u) h = (
    elim (Bool-cases (is_excluded k)) [
      | inl e ↦ inl e
      | inr e ↦
          let m = h k v e (rw (eq_refl k)) in
          inr (m.0, m.1, strip-same v m.0 i.0 (HaveJson-lookup k gs m.0 j m.1) m.2)
    ],
    strip-Covers fs gs i.1 j u (λ o w e l. h o w e (lookup_in_tail k o v w fs n l)),
  )

  strip-SameItems :
      (xs ys : Items) → AreJson xs → AreJson ys → strip_items xs ≡ strip_items ys → SameItems xs ys
  strip-SameItems nil nil i j h = tt
  strip-SameItems nil (cons w ys) i j h = cc
  strip-SameItems (cons v xs) nil i j h = cc
  strip-SameItems (cons v xs) (cons w ys) i j h =
      (strip-same v w i.0 j.0 (cc), strip-SameItems xs ys i.1 j.1 (cc))

-- Two values have one canonical form exactly when they state the same.
pub strip_and_sort_keys_exact :
    (v w : Json)
    → IsJson v
    → IsJson w
    → (strip_and_sort_keys v ≡ strip_and_sort_keys w) ↔ SameFacts v w
strip_and_sort_keys_exact v w i j = (strip-same v w i j, same-strip v w i j)
