-- ===== src/Canonical/Structure.antt =====
-- The canonical texts of src/canonical_form.ts, and what two values with one text have in common.
use coltrane.Base.{
  String, ◌≡◌, refl, sym, ap, subst, inl, inr, lookup-absent, ◌∙◌, ◌↔◌, Bool, true, false, ◌||◌,
  Option, none, some, ◌==◌, eq_iff, arith, Dict, lookup, keys, Unique, includes, lookup-sort_keys,
  sort_keys_ext, Bool-cases, if◌then◌else◌,
}
use coltrane.Base.Json.{Json, Fields, obj, end, field, entries}
use coltrane.Canonical.{
  is_excluded, of_entries, canon_json, is_empty_value, add_unless, strip_structural,
  structural_fields, canon_structural_json,
}
use coltrane.Canonical.Facts.{IsJson, SameFacts}
use coltrane.Canonical.Forms.{strip_and_sort_keys_exact, of_entries_inj}
use coltrane.Canonical.Printing.{stringify}
use coltrane.Canonical.Printing.Injective.{stringify_inj}

-- Two JSON values, whose objects state no key twice, have one canonical text exactly when they state
-- the same: equal leaves, lists equal member by member, and objects with the same values under the
-- same keys in any order, where the keys `content_hash`, `materialized_at` and `last_seen` do not count, nor
-- does `__proto__`.
pub canon_json_exact :
    (v w : Json) → IsJson v → IsJson w → (canon_json v ≡ canon_json w) ↔ SameFacts v w
unfolding canon_json
canon_json_exact v w i j = (
  λ h. (strip_and_sort_keys_exact v w i j).0 (stringify_inj _ _ h),
  λ s. ap stringify ((strip_and_sort_keys_exact v w i j).1 s),
)

abbrev unless_empty : Bool → Json → Option Json
unless_empty true v = none
unless_empty false v = some v

abbrev stated_value : Bool → Option Json → Option Json
stated_value true o = none
stated_value false none = none
stated_value false (some v) =
    unless_empty (is_empty_value (strip_structural v)) (strip_structural v)

-- What an object states under a key for a structural hash: nothing if the key is excluded or absent,
-- or if the structural form of its value is null, an empty list or an empty object.
abbrev pub states : String → Fields → Option Json
states k fs = stated_value (is_excluded k) (lookup k (entries fs))

lookup-add_unless :
    (k j : String) (skip : Bool) (v : Json) (m : Dict Json)
    → lookup j (add_unless skip k v m)
      ≡ (if skip then lookup j m else if k == j then some v else lookup j m)
unfolding lookup add_unless
lookup-add_unless k j true v m = refl
lookup-add_unless k j false v m = refl

absent-add_unless :
    (k j : String) (skip : Bool) (v : Json) (m : Dict Json)
    → (j == k) ≡ false
    → includes k (keys m) ≡ false
    → includes k (keys (add_unless skip j v m)) ≡ false
unfolding includes keys add_unless
absent-add_unless k j true v m e n = n
absent-add_unless k j false v m e n = rw (e, n)

Unique-add_unless :
    (k : String) (skip : Bool) (v : Json) (m : Dict Json)
    → includes k (keys m) ≡ false
    → Unique (keys m)
    → Unique (keys (add_unless skip k v m))
unfolding Unique keys add_unless
Unique-add_unless k true v m n u = u
Unique-add_unless k false v m n u = (n, u)

structural_fields-absent :
    (k : String) (fs : Fields)
    → includes k (keys (entries fs)) ≡ false
    → includes k (keys (structural_fields fs)) ≡ false
unfolding includes keys structural_fields
structural_fields-absent k end n = refl
structural_fields-absent k (field j v fs) n =
    absent-add_unless k j (is_excluded j || is_empty_value (strip_structural v))
      (strip_structural v) (structural_fields fs) (ground (arith, n))
      (structural_fields-absent k fs (ground (arith, n)))

structural_fields-Unique :
    (fs : Fields) → Unique (keys (entries fs)) → Unique (keys (structural_fields fs))
unfolding Unique keys structural_fields
structural_fields-Unique end u = tt
structural_fields-Unique (field k v fs) (n, u) =
    Unique-add_unless k (is_excluded k || is_empty_value (strip_structural v)) (strip_structural v)
      (structural_fields fs) (structural_fields-absent k fs n) (structural_fields-Unique fs u)

either_empty :
    (e : Bool) (w : Json) (rest : Option Json)
    → rest ≡ none
    → (if e then rest else some w) ≡ unless_empty e w
either_empty true w rest r = r
either_empty false w rest r = refl

head_stated :
    (x : Bool) (v : Json) (rest : Option Json)
    → rest ≡ none
    → (if x || is_empty_value (strip_structural v) then rest else some (strip_structural v))
      ≡ stated_value x (some v)
head_stated true v rest r = r
head_stated false v rest r =
    either_empty (is_empty_value (strip_structural v)) (strip_structural v) rest r

either_way : (x : Bool) (o : Option Json) → (if x then o else o) ≡ o
either_way true o = refl
either_way false o = refl

at_key :
    (j k : String) (v : Json) (fs : Fields)
    → (j == k) ≡ true
    → lookup j (structural_fields fs) ≡ none
    → (if is_excluded j || is_empty_value (strip_structural v)
        then lookup k (structural_fields fs)
        else some (strip_structural v))
      ≡ stated_value (is_excluded k) (some v)
at_key j k v fs b n =
    subst
      (λ i.
        (if is_excluded j || is_empty_value (strip_structural v)
          then lookup i (structural_fields fs)
          else some (strip_structural v))
        ≡ stated_value (is_excluded i) (some v))
      ((eq_iff j k).0 b) (head_stated (is_excluded j) v (lookup j (structural_fields fs)) n)

structural_fields-states :
    (k : String) (fs : Fields)
    → Unique (keys (entries fs))
    → lookup k (structural_fields fs) ≡ states k fs
unfolding lookup structural_fields Unique keys
structural_fields-states k end u = ground arith
structural_fields-states k (field j v fs) (n, u) =
    lookup-add_unless j k (is_excluded j || is_empty_value (strip_structural v))
      (strip_structural v) (structural_fields fs)
    ∙ elim (Bool-cases (j == k)) [
      | inl b ↦ rw b (
          at_key j k v fs b
            (lookup-absent j (structural_fields fs) (structural_fields-absent j fs n)))
      | inr b ↦ rw b (
          either_way (is_excluded j || is_empty_value (strip_structural v)) _
          ∙ structural_fields-states k fs u)
    ]

pub obj_inj : {fs gs : Fields} → obj fs ≡ obj gs → fs ≡ gs
obj_inj h = cc

-- Two objects, neither of which states a key twice, have one structural text exactly when they state
-- the same under every key. Excluded keys, absent keys and keys whose value comes to null, an empty
-- list or an empty object all state nothing, and the order of keys does not count.
canon_structural_json_exact :
    (fs gs : Fields)
    → Unique (keys (entries fs))
    → Unique (keys (entries gs))
    → (canon_structural_json (obj fs) ≡ canon_structural_json (obj gs))
      ↔ ((k : String) → states k fs ≡ states k gs)
unfolding canon_structural_json strip_structural
canon_structural_json_exact fs gs u v = (
  λ h k.
      sym (structural_fields-states k fs u)
      ∙ (sym (lookup-sort_keys k (structural_fields fs))
          ∙ (ap (lookup k) (of_entries_inj _ _ (obj_inj (stringify_inj _ _ h)))
              ∙ (lookup-sort_keys k (structural_fields gs) ∙ structural_fields-states k gs v))),
  λ h.
      ap (λ m. stringify (obj (of_entries m)))
        (sort_keys_ext (structural_fields fs) (structural_fields gs) (structural_fields-Unique fs u)
          (structural_fields-Unique gs v)
          (λ k. structural_fields-states k fs u ∙ (h k ∙ sym (structural_fields-states k gs v)))),
)
