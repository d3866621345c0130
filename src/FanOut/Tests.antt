-- ===== src/FanOut/Tests.antt =====
-- A chair split over two items, with one set joined, and the theorems on it.
use coltrane.Base.{
  String, ◌≡◌, ◌≢◌, refl, Bool, false, none, some, List, [], ◌∷◌, map, any, keep, includes, All,
  Unique, lookup, ◌==◌,
}
use coltrane.Base.Json.{Json, Fields, str, arr, obj, nil, cons, end, field}
use coltrane.FanOut.Records.{
  Over, Join, FanOut, Chair, OutputRecord, segments, path_get, members, shares, as_values,
}
use coltrane.FanOut.Sources.{
  Split, done, refused, then_split, Source, from_record, Sourced, items_with_source, keys_from,
  split_each,
}
use coltrane.FanOut.Slices.{FanOutInstance, Joined, instance_of}
use coltrane.FanOut.Expansion.{FanOutExpansion, over_sources, join_set, expand_fan_out}
use coltrane.FanOut.Seats.{IsSeatOf, expand_fan_out_seats}
use coltrane.FanOut.Coverage.{AreReports, expand_fan_out_unmatched}
use coltrane.FanOut.Views.{join_restores_the_set}
use coltrane.FanOut.Plan.{PhaseDef, plan_seats}
use coltrane.FanOut.Gathering.{RunRecords, whole_records}
use coltrane.FanOut.Planning.{AgreePhases, number_of_seats, run_seats, is_refused, plan_seats-run}

abbrev item : String → Json
item id = obj (field "id" (str id) end)

abbrev provisions : OutputRecord
provisions = record {
  id = "r1";
  domain_type = "provisions";
  content_sha = "c1";
  content =
      field "items" (arr (cons (item "a") (cons (item "b") nil))) (field "title" (str "t") end);
}

abbrev findings : OutputRecord
findings = record {
  id = "r2";
  domain_type = "findings";
  content_sha = "c2";
  content =
      field "list"
        (arr (cons (obj (field "ref" (str "a") end)) (cons (obj (field "ref" (str "z") end)) nil)))
        end;
}

abbrev over : Over
over = record {
  kind = "provisions";
  path = "items";
  key = "id";
  across_sources = false;
  carry = none;
}

abbrev join : Join
join = record { kind = "findings"; path = "list"; on = "ref"; matching = "id" }

abbrev fan : FanOut
fan = record { over = over; join = join ∷ [] }

abbrev drafter : Chair
drafter = record {
  role = "drafter";
  agent_slug = some "scribe";
  skill_slug = none;
  input_contract = "provisions" ∷ "findings" ∷ [];
  depends_on = [];
  fan_out = some fan;
}

abbrev satisfies : OutputRecord → String → Bool
satisfies r kind = r.domain_type == kind

abbrev digest : String → String
digest s = s

abbrev records : List OutputRecord
records = provisions ∷ findings ∷ []

abbrev or_nothing : Split FanOutExpansion → FanOutExpansion
or_nothing (done e) = e
or_nothing (refused why) = record { instances = []; unmatched = [] }

abbrev expansion : FanOutExpansion
expansion = or_nothing (expand_fan_out digest satisfies drafter records end)

expanded : expand_fan_out digest satisfies drafter records end ≡ done expansion
unfolding expand_fan_out then_split keep path_get segments lookup members includes
expanded = refl

roles : map (λ i. i.chair.role) expansion.instances ≡ "drafter#a" ∷ "drafter#b" ∷ []
unfolding expand_fan_out then_split keep path_get segments lookup members includes
roles = refl

reported_values : map (λ u. u.values) expansion.unmatched ≡ (some (str "z") ∷ []) ∷ []
unfolding expand_fan_out then_split keep path_get segments lookup members includes shares any
    as_values
reported_values = refl

expand_fan_out_seats_example :
    (sources : List Source) × (froms : List Sourced) × (over_sources satisfies over records end
      ≡ done sources)
    × (items_with_source "provisions" "items" [] sources ≡ done froms)
    × (froms ≢ [])
    × (keys_from "id" 0 (map (λ s. s.item) froms) ≡ done (map (λ i. i.value) expansion.instances))
    × All (IsSeatOf drafter over) expansion.instances
    × Unique (map (λ i. i.chair.role) expansion.instances)
expand_fan_out_seats_example =
    expand_fan_out_seats digest satisfies drafter fan records end expansion refl expanded

expand_fan_out_unmatched_example :
    (sources : List Source) × (froms : List Sourced) × (joins : List Joined) × (over_sources
        satisfies over records end
      ≡ done sources)
    × (items_with_source "provisions" "items" [] sources ≡ done froms)
    × (split_each (join_set satisfies records end) (join ∷ []) ≡ done joins)
    × AreReports "drafter" (map (λ s. s.item) froms) joins expansion.unmatched
expand_fan_out_unmatched_example =
    expand_fan_out_unmatched digest satisfies drafter fan records end expansion refl expanded

-- The set of the findings, and one that is cut from the record that is split
abbrev found : Joined
found = record { spec = join; source = from_record findings; items = [] }

abbrev titles : Joined
titles = record {
  spec = record { kind = "provisions"; path = "title"; on = "id"; matching = "id" };
  source = from_record provisions;
  items = [];
}

abbrev or_no_seat : Split FanOutInstance → FanOutInstance
or_no_seat (done i) = i
or_no_seat (refused why) = record {
  chair = drafter;
  records = [];
  gig_input = [];
  drop = [];
  of = "";
  key = "";
  value = "";
  slices = [];
}

abbrev seat_with : List Joined → Split FanOutInstance
seat_with joins =
    instance_of digest drafter over joins
      (record { item = item "a"; source = from_record provisions; drop = [] }) "a"

seated : seat_with (found ∷ []) ≡ done (or_no_seat (seat_with (found ∷ [])))
unfolding instance_of then_split
seated = refl

seated_twice : seat_with (titles ∷ []) ≡ done (or_no_seat (seat_with (titles ∷ [])))
unfolding instance_of then_split
seated_twice = refl

items_path : segments "items" ≡ "items" ∷ []
unfolding segments
items_path = refl

title_path : segments "title" ≡ "title" ∷ []
unfolding segments
title_path = refl

join_restores_the_set_example :
    (view : Fields) × (lookup "r1" (or_no_seat (seat_with (titles ∷ []))).records
      ≡ some (record provisions { content = view }))
    × (path_get (some (obj view)) (segments "items")
        ≡ path_get (some (obj provisions.content)) (segments "items"))
join_restores_the_set_example =
    join_restores_the_set digest drafter over provisions (item "a") [] "a" "items" []
      (or_no_seat (seat_with (titles ∷ []))) refl items_path [] titles "title" [] refl title_path
      refl seated_twice

abbrev standard : List PhaseDef
standard = record { name = "draft"; chairs = drafter ∷ record drafter { fan_out = none } ∷ [] } ∷ []

-- A run that holds one record of each type, one of them produced and one named by the dispatch
abbrev run : Chair → RunRecords
run chair = record {
  produced = provisions ∷ [];
  by_role = [];
  resolved = ("findings", findings ∷ []) ∷ [];
}

plan_seats-run_example :
    let plan = plan_seats digest satisfies end records standard in
    AgreePhases digest satisfies end records run standard plan.phases
    × (plan.seat_count ≡ number_of_seats digest satisfies end records run standard)
    × (plan.incomplete
        ≡ any
            (λ p. any (λ c. is_refused (run_seats digest satisfies end records run c)) p.chairs)
            standard)
unfolding keep whole_records any lookup
plan_seats-run_example =
    plan_seats-run digest satisfies end records run standard (((refl, (refl, tt)), (tt, tt)), tt)

three_seats : (plan_seats digest satisfies end records standard).seat_count ≡ 3
unfolding plan_seats then_split keep path_get segments lookup members includes expand_fan_out
three_seats = refl
