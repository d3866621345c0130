-- ===== src/Base/Sorting.antt =====
-- Dictionaries sorted by their keys: `Object.keys(m).sort()` with the values beside the keys. Two
-- sorted dictionaries with the same entries are the same list.
use Prim.Native.String.{String}
use mathlib.Core.Path.{◌≡◌, refl, sym, subst, ◌∙◌}
use mathlib.Core.Logic.{inl, inr}
use mathlib.Core.Bool.{true, false}
use mathlib.Core.Option.{none, some}
use mathlib.Core.List.{[], ◌∷◌}
use native.Mathlib.Omega.{arith}
use text.Mathlib.Text.{◌==◌}
use text.Mathlib.TextEquality.{eq_iff}
use text.Mathlib.TextPositions.{eq_refl, compare_refl}
use coltrane.Base.Tests.{if◌then◌else◌, Bool-cases}
use coltrane.Base.Lists.{str_leb, includes}
use coltrane.Base.Sets.{Unique}
use coltrane.Base.Dictionary.{Dict, lookup, keys}
use coltrane.Base.Order.{str_leb_total, str_leb_trans, str_leb_antisym}

module _ {ℓ} {V : Type ℓ} where
  unfoldable pub put_sorted : String → V → Dict V → Dict V
  put_sorted k v [] = (k, v) ∷ []
  put_sorted k v ((j, w) ∷ m) =
      if str_leb k j then (k, v) ∷ (j, w) ∷ m else (j, w) ∷ put_sorted k v m

  unfoldable pub sort_keys : Dict V → Dict V
  unfolding put_sorted
  sort_keys [] = []
  sort_keys ((k, v) ∷ m) = put_sorted k v (sort_keys m)

  -- Every key of `m` comes after `k`.
  unfoldable Above : String → Dict V → Type 0
  Above k [] = Unit
  Above k ((j, w) ∷ m) = (str_leb j k ≡ false) × Above k m

  -- The keys ascend, none twice.
  unfoldable pub IsAscending : Dict V → Type 0
  unfolding Above
  IsAscending [] = Unit
  IsAscending ((k, v) ∷ m) = Above k m × IsAscending m

str_leb_refl : (a : String) → str_leb a a ≡ true
str_leb_refl a = ground (arith, compare_refl a)

leb_of_eq : (a b : String) → (a == b) ≡ true → str_leb a b ≡ true
leb_of_eq a b h = subst (λ c. str_leb a c ≡ true) ((eq_iff a b).0 h) (str_leb_refl a)

gt_trans : (a b c : String) → str_leb b a ≡ false → str_leb c b ≡ false → str_leb c a ≡ false
gt_trans a b c h k = elim (Bool-cases (str_leb c a)) [
  | inl e ↦ cc (str_leb_trans c a b e (str_leb_total b a h))
  | inr e ↦ e
]

module _ {ℓ} {V : Type ℓ} where
  pub lookup-put_sorted :
      (k j : String) (v : V) (m : Dict V)
      → lookup j (put_sorted k v m) ≡ (if k == j then some v else lookup j m)
  unfolding lookup put_sorted
  lookup-put_sorted k j v [] = refl
  lookup-put_sorted k j v ((i, w) ∷ m) = ground (
    arith,
    lookup-put_sorted k j v m,
    eq_iff i k,
    eq_iff i j,
    eq_iff k j,
    eq_refl k,
    leb_of_eq k i,
  )

  pub lookup-sort_keys : (j : String) (m : Dict V) → lookup j (sort_keys m) ≡ lookup j m
  unfolding lookup sort_keys
  lookup-sort_keys j [] = refl
  lookup-sort_keys j ((k, v) ∷ m) = rw (lookup-put_sorted k j v (sort_keys m), lookup-sort_keys j m)

  Above-put_sorted :
      (i k : String) (v : V) (m : Dict V)
      → str_leb k i ≡ false
      → Above i m
      → Above i (put_sorted k v m)
  unfolding Above put_sorted
  Above-put_sorted i k v [] h a = (h, tt)
  Above-put_sorted i k v ((j, w) ∷ m) h a = ground (arith, Above-put_sorted i k v m h a.1)

  Above-trans : (i k : String) (m : Dict V) → str_leb k i ≡ false → Above k m → Above i m
  unfolding Above
  Above-trans i k [] h a = tt
  Above-trans i k ((j, w) ∷ m) h a = (gt_trans i k j h a.0, Above-trans i k m h a.1)

  put_sorted-IsAscending :
      (k : String) (v : V) (m : Dict V)
      → lookup k m ≡ none
      → IsAscending m
      → IsAscending (put_sorted k v m)
  unfolding IsAscending Above put_sorted lookup
  put_sorted-IsAscending k v [] h s = (tt, tt)
  put_sorted-IsAscending k v ((j, w) ∷ m) h (a, s) = elim (Bool-cases (str_leb k j)) [
    | inl e ↦
        let above : str_leb j k ≡ false = ground (arith, h, eq_iff j k, str_leb_antisym j k) in
        rw e ((above, Above-trans k j m above a), (a, s))
    | inr e ↦ rw e (
      Above-put_sorted j k v m e a,
      put_sorted-IsAscending k v m (ground (arith, h, leb_of_eq k j, eq_iff j k, eq_iff k j)) s,
    )
  ]

  absent_below : (i k : String) (m : Dict V) → str_leb i k ≡ true → Above k m → lookup i m ≡ none
  unfolding lookup Above
  absent_below i k [] h a = refl
  absent_below i k ((j, w) ∷ m) h (b, a) = elim (Bool-cases (j == i)) [
    | inl e ↦ cc (subst (λ x. str_leb x k ≡ false) ((eq_iff j i).0 e) b)
    | inr e ↦ rw e (absent_below i k m h a)
  ]

  pub lookup-absent : (k : String) (m : Dict V) → includes k (keys m) ≡ false → lookup k m ≡ none
  unfolding lookup includes keys
  lookup-absent k [] h = refl
  lookup-absent k ((j, w) ∷ m) h = ground (arith, lookup-absent k m)

  pub sort_keys-IsAscending : (m : Dict V) → Unique (keys m) → IsAscending (sort_keys m)
  unfolding sort_keys keys Unique IsAscending
  sort_keys-IsAscending [] d = tt
  sort_keys-IsAscending ((k, v) ∷ m) (n, d) =
      put_sorted-IsAscending k v (sort_keys m) (lookup-sort_keys k m ∙ lookup-absent k m n)
        (sort_keys-IsAscending m d)

  -- Ascending dictionaries with the same entries begin with the same key.
  heads :
      (k j : String) (v w : V) (m n : Dict V)
      → Above k m
      → Above j n
      → ((i : String) → lookup i ((k, v) ∷ m) ≡ lookup i ((j, w) ∷ n))
      → (k == j) ≡ true
  unfolding lookup
  heads k j v w m n a b h = elim (Bool-cases (str_leb k j)) [
    | inl e ↦ ground (arith, h k, eq_refl k, absent_below k j n e b, eq_iff j k, eq_iff k j)
    | inr e ↦
        ground (
          arith,
          h j,
          eq_refl j,
          absent_below j k m (str_leb_total k j e) a,
          eq_iff j k,
          eq_iff k j,
        )
  ]

  tails :
      (k : String) (v w : V) (m n : Dict V)
      → Above k m
      → Above k n
      → ((i : String) → lookup i ((k, v) ∷ m) ≡ lookup i ((k, w) ∷ n))
      → (i : String) → lookup i m ≡ lookup i n
  unfolding lookup
  tails k v w m n a b h i = elim (Bool-cases (k == i)) [
    | inl e ↦
        let le : str_leb i k ≡ true = leb_of_eq i k (ground (arith, eq_iff k i, eq_iff i k)) in
        absent_below i k m le a ∙ sym (absent_below i k n le b)
    | inr e ↦ ground (arith, h i)
  ]

  pub IsAscending-ext :
      (m n : Dict V)
      → IsAscending m
      → IsAscending n
      → ((i : String) → lookup i m ≡ lookup i n)
      → m ≡ n
  unfolding IsAscending lookup
  IsAscending-ext [] [] s t h = refl
  IsAscending-ext [] ((j, w) ∷ n) s t h = ground (arith, h j, eq_refl j)
  IsAscending-ext ((k, v) ∷ m) [] s t h = ground (arith, h k, eq_refl k)
  IsAscending-ext ((k, v) ∷ m) ((j, w) ∷ n) (a, s) (b, t) h =
      let same = (eq_iff k j).0 (heads k j v w m n a b h) in
      let h' =
        subst (λ x. (i : String) → lookup i ((k, v) ∷ m) ≡ lookup i ((x, w) ∷ n)) (sym same) h in
      let v-eq-w : v ≡ w = ground (arith, h' k, eq_refl k) in
      let rest =
        IsAscending-ext m n s t (tails k v w m n a (subst (λ x. Above x n) (sym same) b) h') in
      λ i. (same i, v-eq-w i) ∷ rest i

  -- Sorting forgets the order of the entries, and nothing else.
  pub sort_keys_ext :
      (m n : Dict V)
      → Unique (keys m)
      → Unique (keys n)
      → ((i : String) → lookup i m ≡ lookup i n)
      → sort_keys m ≡ sort_keys n
  sort_keys_ext m n u v h =
      IsAscending-ext (sort_keys m) (sort_keys n) (sort_keys-IsAscending m u)
        (sort_keys-IsAscending n v) (λ i. lookup-sort_keys i m ∙ (h i ∙ sym (lookup-sort_keys i n)))
