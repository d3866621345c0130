-- ===== src/Song/Distances.antt =====
-- The distance of src/circle_of_fifths.ts is a metric on the keys, and its steps are the adjacent
-- keys.
use coltrane.Base.{ℕ, ◌+◌, ◌≤◌, ◌<◌, ◌≡◌, refl, ◌↔◌, arith, any, sym, ap, ◌∙◌, true}
use coltrane.Song.Circle.{
  Key, key_c, key_g, key_d, key_a, key_e, key_b, key_gb, key_db, key_ab, key_eb, key_bb, key_f,
  key_index, key_at, circle_of_fifths_distance, adjacent_keys, same_key, get_elem?,
}

key_index_bound : (k : Key) → key_index k < 12
key_index_bound key_c = omega arith
key_index_bound key_g = omega arith
key_index_bound key_d = omega arith
key_index_bound key_a = omega arith
key_index_bound key_e = omega arith
key_index_bound key_b = omega arith
key_index_bound key_gb = omega arith
key_index_bound key_db = omega arith
key_index_bound key_ab = omega arith
key_index_bound key_eb = omega arith
key_index_bound key_bb = omega arith
key_index_bound key_f = omega arith

key_at-key_index : (k : Key) → key_at (key_index k) ≡ k
unfolding get_elem?
key_at-key_index key_c = refl
key_at-key_index key_g = refl
key_at-key_index key_d = refl
key_at-key_index key_a = refl
key_at-key_index key_e = refl
key_at-key_index key_b = refl
key_at-key_index key_gb = refl
key_at-key_index key_db = refl
key_at-key_index key_ab = refl
key_at-key_index key_eb = refl
key_at-key_index key_bb = refl
key_at-key_index key_f = refl

-- The distance is at most six.
pub distance_bound : (a b : Key) → circle_of_fifths_distance a b ≤ 6
unfolding circle_of_fifths_distance
distance_bound a b = ground (arith, key_index_bound a, key_index_bound b)

distance_comm : (a b : Key) → circle_of_fifths_distance a b ≡ circle_of_fifths_distance b a
unfolding circle_of_fifths_distance
distance_comm a b = ground (arith, key_index_bound a, key_index_bound b)

-- The triangle inequality.
pub distance_triangle :
    (a b c : Key)
    → circle_of_fifths_distance a c ≤ circle_of_fifths_distance a b + circle_of_fifths_distance b c
unfolding circle_of_fifths_distance
distance_triangle a b c = ground (arith, key_index_bound a, key_index_bound b, key_index_bound c)

pub distance_self : (a : Key) → circle_of_fifths_distance a a ≡ 0
unfolding circle_of_fifths_distance
distance_self a = ground (arith, key_index_bound a)

same_key-≡ : (a b : Key) → key_index a ≡ key_index b → a ≡ b
same_key-≡ a b h = sym (key_at-key_index a) ∙ ap key_at h ∙ key_at-key_index b

distance_zero : (a b : Key) → circle_of_fifths_distance a b ≡ 0 → a ≡ b
unfolding circle_of_fifths_distance
distance_zero a b h = same_key-≡ a b (ground (arith, h, key_index_bound a, key_index_bound b))

-- A distance on keys that is a metric bounded by six.
record IsMetric (distance : Key → Key → ℕ) : Type 0 where
  pub self : (a : Key) → distance a a ≡ 0
  pub separates : (a b : Key) → distance a b ≡ 0 → a ≡ b
  pub comm : (a b : Key) → distance a b ≡ distance b a
  pub triangle : (a b c : Key) → distance a c ≤ distance a b + distance b c
  pub bound : (a b : Key) → distance a b ≤ 6

-- The distance on the circle of fifths is a metric on the keys: zero exactly between a key and
-- itself, symmetric, with the triangle inequality. It is six at most.
circle_of_fifths_distance-IsMetric : IsMetric circle_of_fifths_distance
circle_of_fifths_distance-IsMetric = record {
  self = distance_self;
  separates = distance_zero;
  comm = distance_comm;
  triangle = distance_triangle;
  bound = distance_bound;
}

-- The keys at distance one from a key are exactly its two adjacent keys.
adjacent_keys_exact :
    (a b : Key) → (circle_of_fifths_distance a b ≡ 1) ↔ (any (same_key b) (adjacent_keys a) ≡ true)
unfolding circle_of_fifths_distance adjacent_keys any get_elem?
adjacent_keys_exact key_c b = ground (arith, key_index_bound b)
adjacent_keys_exact key_g b = ground (arith, key_index_bound b)
adjacent_keys_exact key_d b = ground (arith, key_index_bound b)
adjacent_keys_exact key_a b = ground (arith, key_index_bound b)
adjacent_keys_exact key_e b = ground (arith, key_index_bound b)
adjacent_keys_exact key_b b = ground (arith, key_index_bound b)
adjacent_keys_exact key_gb b = ground (arith, key_index_bound b)
adjacent_keys_exact key_db b = ground (arith, key_index_bound b)
adjacent_keys_exact key_ab b = ground (arith, key_index_bound b)
adjacent_keys_exact key_eb b = ground (arith, key_index_bound b)
adjacent_keys_exact key_bb b = ground (arith, key_index_bound b)
adjacent_keys_exact key_f b = ground (arith, key_index_bound b)
