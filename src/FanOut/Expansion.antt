-- ===== src/FanOut/Expansion.antt =====
-- src/fan_out.ts: `expandFanOut`. The digest `sha256Hex` and the type test of the engine are arguments.
use coltrane.Base.{
  String, Bool, not, Option, none, some, List, [], ◌∷◌, ◌++◌, map, keep, if◌then◌else◌,
}
use coltrane.Base.Json.{Json, Fields}
use coltrane.FanOut.Records.{Over, Join, FanOut, Chair, OutputRecord, segments, path_get}
use coltrane.FanOut.Sources.{
  no_fan_out, no_items, shared_key, Split, done, refused, then_split, Source, split_each, array_at,
  Sourced, items_with_source, keys_from, first_repeat, one_source, some_sources,
}
use coltrane.FanOut.Slices.{Joined, FanOutInstance, FanOutUnmatched, goes_with, instance_of}

abbrev pub satisfying :
    (OutputRecord → String → Bool) → String → List OutputRecord → List OutputRecord
satisfying satisfies kind records = keep (λ r. satisfies r kind) records

unfoldable pub over_sources :
    (OutputRecord → String → Bool) → Over → List OutputRecord → Fields → Split (List Source)
over_sources satisfies over records gig_input =
    if over.across_sources
    then some_sources over.kind (satisfying satisfies over.kind records)
    else then_split (one_source over.kind gig_input (satisfying satisfies over.kind records))
        (λ s. done (s ∷ []))

-- The set of one join
unfoldable pub join_set :
    (OutputRecord → String → Bool) → List OutputRecord → Fields → Join → Split Joined
unfolding array_at
join_set satisfies records gig_input j =
    then_split (one_source j.kind gig_input (satisfying satisfies j.kind records)) (λ s.
      then_split (array_at j.kind j.path s)
        (λ vs. done (record { spec = j; source = s; items = vs })))

-- What is left of a join's items when each instance has taken those that go with its item
unfoldable pub left_over : Join → List Json → List Json → List Json
unfolding goes_with
left_over j [] left = left
left_over j (item ∷ items) left = left_over j items (keep (λ it. not (goes_with j item it)) left)

abbrev pub reported : String → Join → List Json → List FanOutUnmatched
reported role j [] = []
reported role j (v ∷ vs) =
    record {
      role = role;
      kind = j.kind;
      path = j.path;
      on = j.on;
      values = map (λ it. path_get (some it) (segments j.on)) (v ∷ vs);
    }
    ∷ []

unfoldable pub unmatched_of : String → List Json → List Joined → List FanOutUnmatched
unfolding left_over
unmatched_of role items [] = []
unmatched_of role items (j ∷ js) =
    reported role j.spec (left_over j.spec items j.items) ++ unmatched_of role items js

pub record FanOutExpansion : Type 0 where
  pub instances : List FanOutInstance
  pub unmatched : List FanOutUnmatched

abbrev pub items_or_refusal : Over → List Sourced → Split (List Sourced)
items_or_refusal over [] = refused (no_items over.kind over.path)
items_or_refusal over (s ∷ ss) = done (s ∷ ss)

abbrev pub keys_or_refusal : List String → Option String → Split (List String)
keys_or_refusal keys none = done keys
keys_or_refusal keys (some k) = refused (shared_key k)

module _ (sha256_hex : String → String) where
  unfoldable pub instances_of :
      Chair → Over → List Joined → List Sourced → List String → Split (List FanOutInstance)
  unfolding instance_of
  instances_of chair over joins [] keys = done []
  instances_of chair over joins (from ∷ froms) [] = done []
  instances_of chair over joins (from ∷ froms) (key ∷ keys) =
      let rest = instances_of chair over joins froms keys in
      then_split (instance_of sha256_hex chair over joins from key)
        (λ seat. then_split rest (λ seats. done (seat ∷ seats)))

  module _ (satisfies : OutputRecord → String → Bool) where
    unfoldable pub split_chair : Chair → FanOut → List OutputRecord → Fields → Split FanOutExpansion
    unfolding over_sources items_with_source keys_from first_repeat join_set split_each instances_of
        unmatched_of
    split_chair chair fan records gig_input =
        then_split (over_sources satisfies fan.over records gig_input) (λ sources.
          then_split (items_with_source fan.over.kind fan.over.path [] sources) (λ found.
            then_split (items_or_refusal fan.over found) (λ froms.
              then_split (keys_from fan.over.key 0 (map (λ s. s.item) froms)) (λ named.
                then_split (keys_or_refusal named (first_repeat [] named)) (λ keys.
                  then_split (split_each (join_set satisfies records gig_input) fan.join) (λ joins.
                    then_split (instances_of chair fan.over joins froms keys) (λ instances.
                      done (record {
                        instances = instances;
                        unmatched = unmatched_of chair.role (map (λ s. s.item) froms) joins;
                      }))))))))

    unfoldable pub expand_by :
        Option FanOut → Chair → List OutputRecord → Fields → Split FanOutExpansion
    unfolding split_chair
    expand_by none chair records gig_input = refused (no_fan_out chair.role)
    expand_by (some fan) chair records gig_input = split_chair chair fan records gig_input

    unfoldable pub expand_fan_out : Chair → List OutputRecord → Fields → Split FanOutExpansion
    unfolding expand_by
    expand_fan_out chair records gig_input = expand_by chair.fan_out chair records gig_input
