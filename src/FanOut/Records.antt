-- ===== src/FanOut/Records.antt =====
-- What src/fan_out.ts works on: chairs with their fan-out, records, and values reached by a dotted path.
use Prim.Native.Char.{code}
use coltrane.Base.{
  String, Bool, Option, none, some, List, [], ◌∷◌, any, lookup, put, eqb, glue, if◌then◌else◌, ◌==◌,
}
use coltrane.Base.Json.{Json, Items, Fields, arr, obj, nil, cons, end, entries}
use coltrane.Canonical.{canon_json, of_entries}

pub record Over : Type 0 where
  pub kind : String
  pub path : String
  pub key : String
  pub across_sources : Bool
  pub carry : Option (List String)

pub record Join : Type 0 where
  pub kind : String
  pub path : String
  pub on : String
  pub matching : String

pub record FanOut : Type 0 where
  pub over : Over
  pub join : List Join

pub record Chair : Type 0 where
  pub role : String
  pub agent_slug : Option String
  pub skill_slug : Option String
  pub input_contract : List String
  pub depends_on : List String
  pub fan_out : Option FanOut

pub record OutputRecord : Type 0 where
  pub id : String
  pub domain_type : String
  pub content_sha : String
  pub content : Fields

-- `path.split(".")`
abbrev with_first : String → List String → List String
with_first c [] = c ∷ []
with_first c (s ∷ rest) = glue c s ∷ rest

unfoldable pub segments : String → List String
segments String.[] = "" ∷ []
segments (String.◌∷◌ c s) =
    let rest = segments s in
    if eqb (code c) 46 then "" ∷ rest else with_first (String.◌∷◌ c "") rest

-- `pathGet`, by the segments of the path; `none` is undefined.
unfoldable pub path_get : Option Json → List String → Option Json
path_get cur [] = cur
path_get (some (obj fs)) (seg ∷ rest) = path_get (lookup seg (entries fs)) rest
path_get _ (seg ∷ rest) = none

-- `isObj(v) ? v : {}`
abbrev pub object_or_empty : Option Json → Fields
object_or_empty (some (obj fs)) = fs
object_or_empty _ = end

-- `{ ...fs, [k]: v }`
unfoldable pub with_field : String → Json → Fields → Fields
unfolding of_entries
with_field k v fs = of_entries (put k v (entries fs))

-- `pathSet`, by the segments of the path
unfoldable pub path_set : Fields → List String → Json → Fields
unfolding with_field
path_set fs [] value = fs
path_set fs (head ∷ []) value = with_field head value fs
path_set fs (head ∷ next ∷ rest) value =
    with_field head
      (obj (path_set (object_or_empty (lookup head (entries fs))) (next ∷ rest) value)) fs

-- The members of an array
unfoldable pub members : Items → List Json
members nil = []
members (cons v xs) = v ∷ members xs

unfoldable pub items_of : List Json → Items
items_of [] = nil
items_of (v ∷ vs) = cons v (items_of vs)

unfoldable pub as_values : Option Json → List Json
unfolding members
as_values (some (arr xs)) = members xs
as_values none = []
as_values (some v) = v ∷ []

unfoldable pub shares : List Json → List Json → Bool
unfolding canon_json
shares a b = any (λ x. any (λ y. canon_json x == canon_json y) b) a
