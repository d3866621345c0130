-- ===== src/Song/Circle.antt =====
-- src/circle_of_fifths.ts: the twelve keys, the distance between two, and the kinds of modulation.
-- The lookups of a `Key` in `KEY_INDEX` always succeed, so no function here fails.
use coltrane.Base.{
  ℕ, zero, suc, ◌+◌, ◌-◌, ◌%◌, min, Bool, Option, none, some, List, [], ◌∷◌, eqb, leb,
  if◌then◌else◌, length, or_else, String,
}

pub data Key : Type 0 where
  key_c key_g key_d key_a key_e key_b key_gb key_db key_ab key_eb key_bb key_f : Key

abbrev all_keys : List Key
all_keys =
    key_c ∷ key_g ∷ key_d ∷ key_a ∷ key_e ∷ key_b ∷ key_gb ∷ key_db ∷ key_ab ∷ key_eb ∷ key_bb
    ∷ key_f ∷ []

-- `KEY_INDEX`, the position of a key in `KEYS`.
abbrev pub key_index : Key → ℕ
key_index key_c = 0
key_index key_g = 1
key_index key_d = 2
key_index key_a = 3
key_index key_e = 4
key_index key_b = 5
key_index key_gb = 6
key_index key_db = 7
key_index key_ab = 8
key_index key_eb = 9
key_index key_bb = 10
key_index key_f = 11

-- `from === to`: the names differ as the positions do.
abbrev pub same_key : Key → Key → Bool
same_key a b = eqb (key_index a) (key_index b)

-- `xs[i]`
unfoldable pub get_elem? {ℓ} : {A : Type ℓ} → List A → ℕ → Option A
get_elem? [] i = none
get_elem? (x ∷ xs) zero = some x
get_elem? (x ∷ xs) (suc i) = get_elem? xs i

-- `Math.abs(m - n)`
abbrev abs_diff : ℕ → ℕ → ℕ
abs_diff m n = if leb m n then n - m else m - n

unfoldable pub circle_of_fifths_distance : Key → Key → ℕ
circle_of_fifths_distance a b =
    let raw = abs_diff (key_index a) (key_index b) in min raw (length all_keys - raw)

-- `KEYS[i]!`: every index that the source forms is in range.
abbrev pub key_at : ℕ → Key
key_at i = or_else (get_elem? all_keys i) key_c

-- The keys at left and at right.
unfoldable pub adjacent_keys : Key → List Key
unfolding get_elem?
adjacent_keys k =
    let i = key_index k in
    let right = key_at ((i + 1) % length all_keys) in
    let left = key_at ((i + length all_keys - 1) % length all_keys) in left ∷ right ∷ []

abbrev relative_minor : Key → String
relative_minor key_c = "Am"
relative_minor key_g = "Em"
relative_minor key_d = "Bm"
relative_minor key_a = "F#m"
relative_minor key_e = "C#m"
relative_minor key_b = "G#m"
relative_minor key_gb = "Ebm"
relative_minor key_db = "Bbm"
relative_minor key_ab = "Fm"
relative_minor key_eb = "Cm"
relative_minor key_bb = "Gm"
relative_minor key_f = "Dm"

abbrev pub modulation_threshold : ℕ
modulation_threshold = 1

pub data ModulationKind : Type 0 where
  stay lawful jarring : ModulationKind

unfoldable pub classify_modulation : Key → Key → ℕ → ModulationKind
unfolding circle_of_fifths_distance
classify_modulation from to threshold =
    if same_key from to
    then stay
    else if leb (circle_of_fifths_distance from to) threshold
    then lawful
    else jarring
