-- ===== src/FanOut/Slices.antt =====
-- src/fan_out.ts: what one seat of a fanned-out chair is handed. The digest `sha256Hex` is an argument.
use coltrane.Base.{
  ℕ, String, Bool, not, Option, none, some, List, [], ◌∷◌, ◌++◌, keep, length, Dict, put, glue,
  ◌==◌,
}
use coltrane.Base.Json.{Json, Fields, arr, obj, end}
use coltrane.Canonical.{canon_json}
use coltrane.FanOut.Records.{
  Over, Join, Chair, OutputRecord, segments, path_get, path_set, items_of, as_values, shares,
}
use coltrane.FanOut.Sources.{
  no_carried, Split, done, refused, then_split, Source, from_record, from_payload, source_content,
  Sourced,
}

-- `carried`: the view that keeps these paths only
unfoldable pub carried_from : Fields → Fields → List String → Split Fields
carried_from whole out [] = done out
carried_from whole out (path ∷ paths) = elim (path_get (some (obj whole)) (segments path)) [
  | none ↦ refused (no_carried path)
  | some v ↦ carried_from whole (path_set out (segments path) v) paths
]

unfoldable pub carried : Fields → List String → Split Fields
unfolding carried_from
carried whole kept = carried_from whole end kept

-- A set to join, where it came from, and its items
pub record Joined : Type 0 where
  pub spec : Join
  pub source : Source
  pub items : List Json

pub record SliceEntry : Type 0 where
  pub kind : String
  pub source : String
  pub content_sha : Option String
  pub path : String
  pub count : ℕ
  pub slice_sha : String

-- What one seat is handed, so far
pub record Placed : Type 0 where
  pub records : Dict OutputRecord
  pub gig_input : Dict Json
  pub slices : List SliceEntry

pub record FanOutInstance : Type 0 where
  pub chair : Chair
  pub records : Dict OutputRecord
  pub gig_input : Dict Json
  pub drop : List String
  pub of : String
  pub key : String
  pub value : String
  pub slices : List SliceEntry

pub record FanOutUnmatched : Type 0 where
  pub role : String
  pub kind : String
  pub path : String
  pub on : String
  pub values : List (Option Json)

-- Whether an item of a join goes with an item of the split set
unfoldable pub goes_with : Join → Json → Json → Bool
goes_with j item it =
    shares (as_values (path_get (some it) (segments j.on)))
      (as_values (path_get (some item) (segments j.matching)))

unfoldable pub picked : Joined → Json → List Json
unfolding goes_with
picked j item = keep (goes_with j.spec item) j.items

unfoldable pub place : String → Source → Fields → SliceEntry → Placed → Placed
place kind (from_record r) view entry p = record p {
  records = put r.id (record r { content = view }) p.records;
  slices = p.slices ++ entry ∷ [];
}
place kind (from_payload fs) view entry p = record p {
  gig_input = put kind (obj view) p.gig_input;
  slices = p.slices ++ entry ∷ [];
}

unfoldable pub narrowed_view : Source → String → List Json → Fields
narrowed_view source path narrowed =
    path_set (source_content source) (segments path) (arr (items_of narrowed))

-- The split path is carried whether or not it is named.
unfoldable pub view_of : Option (List String) → String → Fields → Split Fields
unfolding carried
view_of none path whole = done whole
view_of (some kept) path whole = carried whole (path ∷ keep (λ k. not (k == path)) kept)

abbrev source_name : Source → String
source_name (from_record r) = r.id
source_name (from_payload fs) = "gig_input"

abbrev source_sha : Source → Option String
source_sha (from_record r) = some r.content_sha
source_sha (from_payload fs) = none

module _ (sha256_hex : String → String) where
  unfoldable pub slice_entry : String → Source → String → List Json → Fields → SliceEntry
  unfolding canon_json
  slice_entry kind source path narrowed view = record {
    kind = kind;
    source = source_name source;
    content_sha = source_sha source;
    path = path;
    count = length narrowed;
    slice_sha = sha256_hex (canon_json (obj view));
  }

  -- `joins.forEach(…)` of one instance
  unfoldable pub place_joins : Json → List Joined → Placed → Placed
  unfolding picked narrowed_view place slice_entry
  place_joins item [] p = p
  place_joins item (j ∷ js) p =
      let narrowed = picked j item in
      let view = narrowed_view j.source j.spec.path narrowed in
      place_joins item js (
        place j.spec.kind j.source view (slice_entry j.spec.kind j.source j.spec.path narrowed view)
          p)

  unfoldable pub instance_of : Chair → Over → List Joined → Sourced → String → Split FanOutInstance
  unfolding narrowed_view view_of place place_joins slice_entry
  instance_of chair over joins from value =
      let narrowed = from.item ∷ [] in
      then_split (view_of over.carry over.path (narrowed_view from.source over.path narrowed))
        (λ view.
          let first =
            place over.kind from.source view
              (slice_entry over.kind from.source over.path narrowed view)
              (record { records = []; gig_input = []; slices = [] }) in
          let placed = place_joins from.item joins first in
          done (record {
            chair = record chair { role = glue chair.role (glue "#" value); fan_out = none };
            records = placed.records;
            gig_input = placed.gig_input;
            drop = from.drop;
            of = chair.role;
            key = over.key;
            value = value;
            slices = placed.slices;
          }))
