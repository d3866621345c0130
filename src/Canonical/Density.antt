-- ===== src/Canonical/Density.antt =====
-- What the structural form of a value in src/canonical_form.ts is free of.
use coltrane.Base.{
  String, ◌≡◌, refl, Bool, true, false, ◌||◌, [], ◌∷◌, Dict, sort_keys, put_sorted, str_leb,
  Bool-cases, inl, inr,
}
use coltrane.Base.Json.{Json, Items, Fields, null, bool, num, str, arr, obj, nil, cons, end, field}
use coltrane.Canonical.{
  is_excluded, of_entries, is_empty_value, add_unless, strip_structural, structural_items,
  structural_fields,
}

-- No object inside a value states nothing under a key.
unfoldable mutual
  pub IsDense : Json → Type 0
  IsDense (arr xs) = AreDense xs
  IsDense (obj fs) = DenseFields fs
  IsDense _ = Unit

  pub AreDense : Items → Type 0
  AreDense nil = Unit
  AreDense (cons v xs) = IsDense v × AreDense xs

  pub DenseFields : Fields → Type 0
  DenseFields end = Unit
  DenseFields (field k v fs) =
      (is_excluded k ≡ false) × (is_empty_value v ≡ false) × IsDense v × DenseFields fs

put_sorted-Dense :
    (k : String) (v : Json) (m : Dict Json)
    → is_excluded k ≡ false
    → is_empty_value v ≡ false
    → IsDense v
    → DenseFields (of_entries m)
    → DenseFields (of_entries (put_sorted k v m))
unfolding DenseFields of_entries put_sorted
put_sorted-Dense k v [] x e d h = (x, e, d, tt)
put_sorted-Dense k v ((j, w) ∷ m) x e d h = elim (Bool-cases (str_leb k j)) [
  | inl b ↦ rw b (x, e, d, h)
  | inr b ↦ rw b (h.0, h.1, h.2, put_sorted-Dense k v m x e d h.3)
]

sort_keys-Dense :
    (m : Dict Json) → DenseFields (of_entries m) → DenseFields (of_entries (sort_keys m))
unfolding DenseFields of_entries sort_keys
sort_keys-Dense [] h = h
sort_keys-Dense ((k, v) ∷ m) (x, e, d, h) =
    put_sorted-Dense k v (sort_keys m) x e d (sort_keys-Dense m h)

add_unless-Dense :
    (x e : Bool) (k : String) (v : Json) (m : Dict Json)
    → is_excluded k ≡ x
    → is_empty_value v ≡ e
    → IsDense v
    → DenseFields (of_entries m)
    → DenseFields (of_entries (add_unless (x || e) k v m))
unfolding DenseFields of_entries add_unless
add_unless-Dense true e k v m i j d h = h
add_unless-Dense false true k v m i j d h = h
add_unless-Dense false false k v m i j d h = (i, j, d, h)

mutual
  unfolding IsDense AreDense DenseFields of_entries strip_structural structural_items
      structural_fields

  structural-Dense : (v : Json) → IsDense (strip_structural v)
  structural-Dense null = tt
  structural-Dense (bool b) = tt
  structural-Dense (num n) = tt
  structural-Dense (str s) = tt
  structural-Dense (arr xs) = structural_items-Dense xs
  structural-Dense (obj fs) = sort_keys-Dense (structural_fields fs) (structural_fields-Dense fs)

  structural_items-Dense : (xs : Items) → AreDense (structural_items xs)
  structural_items-Dense nil = tt
  structural_items-Dense (cons v xs) = (structural-Dense v, structural_items-Dense xs)

  structural_fields-Dense : (fs : Fields) → DenseFields (of_entries (structural_fields fs))
  structural_fields-Dense end = tt
  structural_fields-Dense (field k v fs) =
      add_unless-Dense (is_excluded k) (is_empty_value (strip_structural v)) k (strip_structural v)
        (structural_fields fs) refl refl (structural-Dense v) (structural_fields-Dense fs)

-- At no depth does the structural form of a value have an object with an excluded key, or with a key
-- whose value is null, an empty list or an empty object.
strip_structural-IsDense : (v : Json) → IsDense (strip_structural v)
strip_structural-IsDense v = structural-Dense v
