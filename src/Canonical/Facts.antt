-- ===== src/Canonical/Facts.antt =====
-- What the canonical form keeps of a value: all but the order of keys and the excluded fields.
use coltrane.Base.{
  String, ◌≡◌, refl, ap, ◌⊎◌, Bool, true, false, Option, none, some, eq_iff, arith, lookup, keys,
  Unique, includes,
}
use coltrane.Base.Json.{
  Json, Items, Fields, null, bool, num, str, arr, obj, nil, cons, end, field, entries,
}
use coltrane.Canonical.{is_excluded, strip_and_sort_keys, strip_fields}

-- No object inside a value states a key twice.
unfoldable mutual
  pub IsJson : Json → Type 0
  IsJson null = Unit
  IsJson (bool b) = Unit
  IsJson (num n) = Unit
  IsJson (str s) = Unit
  IsJson (arr xs) = AreJson xs
  IsJson (obj fs) = Unique (keys (entries fs)) × HaveJson fs

  pub AreJson : Items → Type 0
  AreJson nil = Unit
  AreJson (cons v xs) = IsJson v × AreJson xs

  pub HaveJson : Fields → Type 0
  HaveJson end = Unit
  HaveJson (field k v fs) = IsJson v × HaveJson fs

-- The keys of `gs` that are not excluded are keys of `fs`.
abbrev pub OnlyKeys : Fields → Fields → Type 0
OnlyKeys gs fs =
    (k : String) (w : Json)
    → is_excluded k ≡ false
    → lookup k (entries gs) ≡ some w
    → (v : Json) × (lookup k (entries fs) ≡ some v)

-- Two values state the same: equal leaves, lists member by member, and objects with the same values
-- under the same keys, the excluded keys aside.
unfoldable mutual
  pub SameFacts : Json → Json → Type 0
  SameFacts null w = w ≡ null
  SameFacts (bool b) w = w ≡ bool b
  SameFacts (num n) w = w ≡ num n
  SameFacts (str s) w = w ≡ str s
  SameFacts (arr xs) (arr ys) = SameItems xs ys
  SameFacts (arr xs) _ = ⊥
  SameFacts (obj fs) (obj gs) = Covers fs gs × OnlyKeys gs fs
  SameFacts (obj fs) _ = ⊥

  pub SameItems : Items → Items → Type 0
  SameItems nil nil = Unit
  SameItems nil (cons w ys) = ⊥
  SameItems (cons v xs) nil = ⊥
  SameItems (cons v xs) (cons w ys) = SameFacts v w × SameItems xs ys

  pub Covers : Fields → Fields → Type 0
  Covers end gs = Unit
  Covers (field k v fs) gs =
      ((is_excluded k ≡ true) ⊎ ((w : Json) × (lookup k (entries gs) ≡ some w) × SameFacts v w))
      × Covers fs gs

-- What `strip_fields` holds under a key
abbrev pub kept : Bool → Option Json → Option Json
kept true o = none
kept false none = none
kept false (some v) = some (strip_and_sort_keys v)

pub lookup-strip_fields :
    (k : String) (fs : Fields)
    → lookup k (strip_fields fs) ≡ kept (is_excluded k) (lookup k (entries fs))
unfolding lookup strip_fields
lookup-strip_fields k end = ground arith
lookup-strip_fields k (field j v fs) =
    ground (arith, lookup-strip_fields k fs, eq_iff j k, ap is_excluded)

pub includes-strip_fields :
    (k : String) (fs : Fields)
    → includes k (keys (entries fs)) ≡ false
    → includes k (keys (strip_fields fs)) ≡ false
unfolding includes keys strip_fields
includes-strip_fields k end n = refl
includes-strip_fields k (field j v fs) n = ground (arith, includes-strip_fields k fs)
