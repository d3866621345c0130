-- ===== src/FanOut/Sources.antt =====
-- src/fan_out.ts: where the items of a set come from, and the keys that name them.
use coltrane.Base.{
  ℕ, suc, String, Option, none, some, List, [], ◌∷◌, ◌++◌, map, includes, lookup, if◌then◌else◌,
}
use coltrane.Base.Json.{Json, Fields, num, str, arr, obj, entries}
use coltrane.Canonical.Printing.{decimal}
use coltrane.FanOut.Records.{OutputRecord, segments, path_get, members}

-- The refusals that `FanOutRefused` words
pub data FanOutRefused : Type 0 where
  no_fan_out : String → FanOutRefused
  no_source : String → FanOutRefused
  many_sources : String → List String → FanOutRefused
  no_array : String → String → FanOutRefused
  no_carried : String → FanOutRefused
  no_items : String → String → FanOutRefused
  no_key : ℕ → String → FanOutRefused
  shared_key : String → FanOutRefused

-- A value, or the error that is thrown on the way to it
pub data Split {ℓ} (A : Type ℓ) : Type ℓ where
  done : A → Split A
  refused : FanOutRefused → Split A

unfoldable pub then_split {ℓ κ} : {A : Type ℓ} {B : Type κ} → Split A → (A → Split B) → Split B
then_split (done a) next = next a
then_split (refused e) next = refused e

pub data Source : Type 0 where
  from_record : OutputRecord → Source
  from_payload : Fields → Source

abbrev pub source_content : Source → Fields
source_content (from_record r) = r.content
source_content (from_payload fs) = fs

-- `.map(…)` with a body that may throw
unfoldable pub split_each {ℓ κ} :
    {A : Type ℓ} {B : Type κ} → (A → Split B) → List A → Split (List B)
split_each f [] = done []
split_each f (x ∷ xs) =
    let rest = split_each f xs in then_split (f x) (λ y. then_split rest (λ ys. done (y ∷ ys)))

abbrev pub some_sources : String → List OutputRecord → Split (List Source)
some_sources kind [] = refused (no_source kind)
some_sources kind (r ∷ rs) = done (map from_record (r ∷ rs))

abbrev pub payload_source : String → Option Json → Split Source
payload_source kind (some (obj fs)) = done (from_payload fs)
payload_source kind _ = refused (no_source kind)

abbrev pub one_source : String → Fields → List OutputRecord → Split Source
one_source kind gig_input [] = payload_source kind (lookup kind (entries gig_input))
one_source kind gig_input (r ∷ []) = done (from_record r)
one_source kind gig_input (r ∷ s ∷ rs) = refused (many_sources kind (map (λ t. t.id) (r ∷ s ∷ rs)))

abbrev pub array_or_refusal : String → String → Option Json → Split (List Json)
array_or_refusal kind path (some (arr xs)) = done (members xs)
array_or_refusal kind path _ = refused (no_array kind path)

unfoldable pub array_at : String → String → Source → Split (List Json)
array_at kind path source =
    array_or_refusal kind path (path_get (some (obj (source_content source))) (segments path))

-- An item of the set that is split, with the source that it came from and the other records of the set
pub record Sourced : Type 0 where
  pub item : Json
  pub source : Source
  pub drop : List String

abbrev pub sourced : Source → List String → Json → Sourced
sourced source drop item = record { item = item; source = source; drop = drop }

unfoldable pub record_ids : List Source → List String
record_ids [] = []
record_ids (from_record r ∷ rest) = r.id ∷ record_ids rest
record_ids (from_payload fs ∷ rest) = record_ids rest

-- `itemsWithSource`: the sources in order, `before` those that are done
unfoldable pub items_with_source :
    String → String → List Source → List Source → Split (List Sourced)
unfolding array_at record_ids
items_with_source kind path before [] = done []
items_with_source kind path before (s ∷ after) =
    let rest = items_with_source kind path (before ++ s ∷ []) after in
    then_split (array_at kind path s) (λ vs.
      then_split rest (λ more. done (map (sourced s (record_ids (before ++ after))) vs ++ more)))

-- `String(k)` of an item's key, which is a text or a number
unfoldable pub key_text : String → ℕ → Option Json → Split String
key_text key i (some (str s)) = done s
key_text key i (some (num n)) = done (decimal n n "")
key_text key i _ = refused (no_key i key)

unfoldable pub key_of : String → ℕ → Json → Split String
unfolding key_text
key_of key i (obj fs) = key_text key i (lookup key (entries fs))
key_of key i _ = refused (no_key i key)

unfoldable pub keys_from : String → ℕ → List Json → Split (List String)
unfolding key_of
keys_from key i [] = done []
keys_from key i (v ∷ vs) =
    let rest = keys_from key (suc i) vs in
    then_split (key_of key i v) (λ k. then_split rest (λ ks. done (k ∷ ks)))

-- `keys.find((k, i) => keys.indexOf(k) !== i)`
unfoldable pub first_repeat : List String → List String → Option String
first_repeat seen [] = none
first_repeat seen (k ∷ ks) =
    let rest = first_repeat (k ∷ seen) ks in if includes k seen then some k else rest
