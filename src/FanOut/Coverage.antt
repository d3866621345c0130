-- ===== src/FanOut/Coverage.antt =====
-- The items of the joined sets in src/fan_out.ts: which of them no seat receives.
use coltrane.Base.{
  Some, Tells, any-Tells, not-Tells, eq_iff, ◌≢◌, ◌⊎◌, subst, cons-nil, String, ◌≡◌, refl, sym, ap,
  ◌∙◌, Bool, true, false, not, ◌&&◌, ◌||◌, some, List, [], ◌∷◌, ◌++◌, map, keep, any, arith,
  Bool-cases, inl, inr,
}
use coltrane.Base.Json.{Json, Fields}
use coltrane.FanOut.Records.{
  segments, path_get, as_values, shares, Join, FanOut, Chair, OutputRecord,
}
use coltrane.Canonical.{canon_json}
use coltrane.FanOut.Sources.{done, Source, Sourced, items_with_source, split_each}
use coltrane.FanOut.Slices.{Joined, goes_with, FanOutUnmatched}
use coltrane.FanOut.Expansion.{
  over_sources, join_set, left_over, reported, unmatched_of, FanOutExpansion, expand_fan_out,
}
use coltrane.FanOut.Stages.{expand_fan_out-Stages}

-- The items that go with none of the split set's items
abbrev pub without_seat : Join → List Json → List Json → List Json
without_seat j items vs = keep (λ it. not (any (λ item. goes_with j item it) items)) vs

keep_then : (p q : Json → Bool) (vs : List Json) → keep p (keep q vs) ≡ keep (λ v. q v && p v) vs
unfolding keep
keep_then p q [] = refl
keep_then p q (v ∷ vs) = elim (Bool-cases (q v)) [
  | inl e ↦ ground (arith, e, keep_then p q vs)
  | inr e ↦ ground (arith, e, keep_then p q vs)
]

keep_ext : (p q : Json → Bool) (vs : List Json) → ((v : Json) → p v ≡ q v) → keep p vs ≡ keep q vs
unfolding keep
keep_ext p q [] h = refl
keep_ext p q (v ∷ vs) h = rw (h v, keep_ext p q vs h)

keep_all : (vs : List Json) → keep (λ v. true) vs ≡ vs
unfolding keep
keep_all [] = refl
keep_all (v ∷ vs) = ap (λ t. v ∷ t) (keep_all vs)

negated_or : (a b : Bool) → (not a && not b) ≡ not (a || b)
negated_or true b = refl
negated_or false b = refl

left_over-without_seat :
    (j : Join) (items vs : List Json) → left_over j items vs ≡ without_seat j items vs
unfolding left_over any
left_over-without_seat j [] vs = sym (keep_all vs)
left_over-without_seat j (item ∷ items) vs =
    left_over-without_seat j items (keep (λ it. not (goes_with j item it)) vs)
    ∙ (keep_then _ _ vs
        ∙ keep_ext _ _ vs
            (λ it. negated_or (goes_with j item it) (any (λ x. goes_with j x it) items)))

-- Two lists of values that have one in common, as their canonical forms tell
abbrev pub Shared : List Json → List Json → Type 0
Shared a b = Some (λ x. Some (λ y. canon_json x ≡ canon_json y) b) a

shares-Tells : (a b : List Json) → Tells (shares a b) (Shared a b)
unfolding shares
shares-Tells a b =
    any-Tells (λ x. Some (λ y. canon_json x ≡ canon_json y) b) _
      (λ x.
        any-Tells (λ y. canon_json x ≡ canon_json y) _ (λ y. eq_iff (canon_json x) (canon_json y))
          b)
      a

-- An item of a join shares a value with an item that the chair is split over: the one's at `on`, the other's
-- at `match`.
abbrev pub Matching : Join → Json → Json → Type 0
Matching j it item =
    Shared (as_values (path_get (some it) (segments j.on)))
      (as_values (path_get (some item) (segments j.matching)))

goes_with-Tells : (j : Join) (it item : Json) → Tells (goes_with j item it) (Matching j it item)
unfolding goes_with
goes_with-Tells j it item = shares-Tells _ _

-- `left` are those of some items, in order, that share a value with none of the seats' items.
abbrev pub IsUnmatched : Join → List Json → List Json → List Json → Type 0
IsUnmatched j items vs left =
    (p : Json → Bool) × (((it : Json) → Tells (p it) (¬ Some (Matching j it) items))
      × (left ≡ keep p vs))

-- What is reported of a join: nothing when no item is left, else one report with the values at `on` of
-- the items that are left
abbrev pub Reports : String → Join → List Json → List FanOutUnmatched → Type 0
Reports role j left part =
    ((left ≡ []) × (part ≡ []))
    ⊎ ((left ≢ [])
        × (part
            ≡ record {
              role = role;
              kind = j.kind;
              path = j.path;
              on = j.on;
              values = map (λ it. path_get (some it) (segments j.on)) left;
            }
              ∷ []))

-- The reports of the joins, one after the other
pub AreReports : String → List Json → List Joined → List FanOutUnmatched → Type 0
AreReports role items [] us = us ≡ []
AreReports role items (j ∷ js) us =
    (left : List Json) × (part : List FanOutUnmatched) × (rest : List FanOutUnmatched) × IsUnmatched
      j.spec items j.items left
    × Reports role j.spec left part
    × AreReports role items js rest
    × (us ≡ part ++ rest)

left_over-IsUnmatched :
    (j : Join) (items vs : List Json) → IsUnmatched j items vs (left_over j items vs)
left_over-IsUnmatched j items vs = (
  λ it. not (any (λ item. goes_with j item it) items),
  (
    λ it. not-Tells (any-Tells (Matching j it) _ (λ item. goes_with-Tells j it item) items),
    left_over-without_seat j items vs,
  ),
)

reported-Reports :
    (role : String) (j : Join) (left : List Json) → Reports role j left (reported role j left)
reported-Reports role j [] = inl (refl, refl)
reported-Reports role j (v ∷ vs) = inr (λ h. cons-nil h, refl)

unmatched_of-AreReports :
    (role : String) (items : List Json) (js : List Joined)
    → AreReports role items js (unmatched_of role items js)
unfolding unmatched_of AreReports
unmatched_of-AreReports role items [] = refl
unmatched_of-AreReports role items (j ∷ js) = (
  left_over j.spec items j.items,
  reported role j.spec (left_over j.spec items j.items),
  unmatched_of role items js,
  left_over-IsUnmatched j.spec items j.items,
  reported-Reports role j.spec (left_over j.spec items j.items),
  unmatched_of-AreReports role items js,
  refl,
)

module _ (sha256_hex : String → String) (satisfies : OutputRecord → String → Bool) (chair : Chair)
    (fan : FanOut) (records : List OutputRecord) (gig_input : Fields) (e : FanOutExpansion) where
  -- When a chair that fans out is expanded, what is reported as unmatched is made of the reports of the joins,
  -- in order. Of each join, those items that share a value with none of the seats' items are left: when there
  -- are some, one report states the role, the type and the paths of the join and the values of these items;
  -- when there are none, nothing is reported.
  pub expand_fan_out_unmatched :
      chair.fan_out ≡ some fan
      → expand_fan_out sha256_hex satisfies chair records gig_input ≡ done e
      → (sources : List Source) × (froms : List Sourced) × (joins : List Joined) × (over_sources
            satisfies fan.over records gig_input
          ≡ done sources)
        × (items_with_source fan.over.kind fan.over.path [] sources ≡ done froms)
        × (split_each (join_set satisfies records gig_input) fan.join ≡ done joins)
        × AreReports chair.role (map (λ s. s.item) froms) joins e.unmatched
  expand_fan_out_unmatched f h =
      let st = expand_fan_out-Stages sha256_hex satisfies chair fan records gig_input e f h in
      (
        st.sources,
        st.froms,
        st.joins,
        st.found,
        st.gathered,
        st.joined,
        subst (AreReports chair.role _ st.joins) st.left
            (unmatched_of-AreReports chair.role _ st.joins),
      )
