-- ===== src/Base/Order.antt =====
-- The order of texts is total, transitive and antisymmetric, and a dictionary sorted by its keys is
-- determined by what it holds.
use Prim.Native.Char.{Char, code}
use Prim.Native.Nat.{Ordering, compare as compare_ℕ}
use Prim.Native.String.compare
use Prim.Native.String.{String, compare, then as first_difference}
use mathlib.Core.Path.{◌≡◌}
use mathlib.Core.Bool.{true, false}
use native.Mathlib.Omega.{arith}
use coltrane.Base.Lists.{str_leb}

-- The clauses of `compare`, as equations.
compare_cons :
    (c d : Char) (s t : String)
    → compare (String.◌∷◌ c s) (String.◌∷◌ d t)
      ≡ first_difference (compare_ℕ (code c) (code d)) (compare s t)
compare_cons c d s t = λ i. compare.cons-cons c d s t i

compare_left : (d : Char) (t : String) → compare String.[] (String.◌∷◌ d t) ≡ Ordering.lt
compare_left d t = λ i. compare.nil-cons d t i

compare_right : (c : Char) (s : String) → compare (String.◌∷◌ c s) String.[] ≡ Ordering.gt
compare_right c s = λ i. compare.cons-nil c s i

compare_empty : compare String.[] String.[] ≡ Ordering.eq
compare_empty = λ i. compare.nil-nil i

pub str_leb_total : (a b : String) → str_leb a b ≡ false → str_leb b a ≡ true
str_leb_total String.[] String.[] h = ground (arith, compare_empty)
str_leb_total String.[] (String.◌∷◌ d t) h = ground (arith, h, compare_left d t)
str_leb_total (String.◌∷◌ c s) String.[] h = ground (arith, compare_left c s)
str_leb_total (String.◌∷◌ c s) (String.◌∷◌ d t) h =
    ground (arith, compare_cons c d s t, compare_cons d c t s, str_leb_total s t)

pub str_leb_trans : (a b c : String) → str_leb a b ≡ true → str_leb b c ≡ true → str_leb a c ≡ true
str_leb_trans String.[] b String.[] h k = ground (arith, compare_empty)
str_leb_trans String.[] b (String.◌∷◌ e u) h k = ground (arith, compare_left e u)
str_leb_trans (String.◌∷◌ c s) String.[] u h k = ground (arith, compare_right c s)
str_leb_trans (String.◌∷◌ c s) (String.◌∷◌ d t) String.[] h k = ground (arith, compare_right d t)
str_leb_trans (String.◌∷◌ c s) (String.◌∷◌ d t) (String.◌∷◌ e u) h k =
    ground
      (arith, compare_cons c d s t, compare_cons d e t u, compare_cons c e s u, str_leb_trans s t u)

-- Texts that are below one another are the same text.
pub str_leb_antisym :
    (a b : String) → str_leb a b ≡ true → str_leb b a ≡ true → compare a b ≡ Ordering.eq
str_leb_antisym String.[] String.[] h k = compare_empty
str_leb_antisym String.[] (String.◌∷◌ d t) h k = ground (arith, compare_right d t)
str_leb_antisym (String.◌∷◌ c s) String.[] h k = ground (arith, compare_right c s)
str_leb_antisym (String.◌∷◌ c s) (String.◌∷◌ d t) h k =
    ground (arith, compare_cons c d s t, compare_cons d c t s, str_leb_antisym s t)
