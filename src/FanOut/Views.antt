-- ===== src/FanOut/Views.antt =====
-- The view of a record that a seat is handed in src/fan_out.ts.
use coltrane.Base.{
  String, ◌≡◌, refl, sym, ap, ◌∙◌, Bool, false, none, some, List, [], ◌∷◌, ◌++◌, ◌==◌, eq_refl,
  Dict, lookup, put, lookup-put, if◌then◌else◌, All,
}
use coltrane.Base.Json.{Json, Fields, arr, obj, nil, cons, entries}
use coltrane.Canonical.{of_entries}
use coltrane.FanOut.Records.{
  Over, Chair, OutputRecord, segments, with_field, path_get, path_set, items_of, object_or_empty,
}
use coltrane.FanOut.Sources.{done, Source, from_record, from_payload, source_content}
use coltrane.FanOut.Slices.{
  Joined, Placed, FanOutInstance, SliceEntry, slice_entry, picked, place, place_joins, instance_of,
  view_of, narrowed_view,
}
use coltrane.FanOut.Stages.{then_split-done, done-eq_done}

entries-of_entries : (m : Dict Json) → entries (of_entries m) ≡ m
unfolding of_entries
entries-of_entries [] = refl
entries-of_entries ((k, v) ∷ m) = ap (λ t. (k, v) ∷ t) (entries-of_entries m)

pub lookup-with_field :
    (k j : String) (v : Json) (fs : Fields)
    → lookup j (entries (with_field k v fs)) ≡ (if k == j then some v else lookup j (entries fs))
unfolding with_field
lookup-with_field k j v fs =
    ap (lookup j) (entries-of_entries (put k v (entries fs))) ∙ lookup-put k j v (entries fs)

read_back : (k : String) (v : Json) (fs : Fields) → lookup k (entries (with_field k v fs)) ≡ some v
read_back k v fs = lookup-with_field k k v fs ∙ rw (eq_refl k)

-- A value that is set at a path is read back there.
path_get-path_set :
    (fs : Fields) (head : String) (rest : List String) (v : Json)
    → path_get (some (obj (path_set fs (head ∷ rest) v))) (head ∷ rest) ≡ some v
unfolding path_get path_set
path_get-path_set fs head [] v = read_back head v fs
path_get-path_set fs head (next ∷ rest) v =
    ap (λ o. path_get o (next ∷ rest)) (read_back head _ fs)
    ∙ path_get-path_set (object_or_empty (lookup head (entries fs))) next rest v

-- Another top-level field is as it was.
lookup-path_set :
    (fs : Fields) (head : String) (rest : List String) (v : Json) (k : String)
    → (head == k) ≡ false
    → lookup k (entries (path_set fs (head ∷ rest) v)) ≡ lookup k (entries fs)
unfolding path_set
lookup-path_set fs head [] v k h = lookup-with_field head k v fs ∙ rw h
lookup-path_set fs head (next ∷ rest) v k h = lookup-with_field head k _ fs ∙ rw h

path_get-path_set_other :
    (fs : Fields) (head : String) (rest : List String) (v : Json) (k : String) (more : List String)
    → (head == k) ≡ false
    → path_get (some (obj (path_set fs (head ∷ rest) v))) (k ∷ more)
      ≡ path_get (some (obj fs)) (k ∷ more)
unfolding path_get
path_get-path_set_other fs head rest v k more h =
    ap (λ o. path_get o more) (lookup-path_set fs head rest v k h)

-- Whether a source is the record with this id
abbrev is_cut_from : String → Source → Bool
is_cut_from id (from_record r) = r.id == id
is_cut_from id (from_payload fs) = false

lookup-place :
    (id kind : String) (source : Source) (view : Fields) (entry : SliceEntry) (p : Placed)
    → is_cut_from id source ≡ false
    → lookup id (place kind source view entry p).records ≡ lookup id p.records
unfolding place
lookup-place id kind (from_record r) view entry p h =
    lookup-put r.id id (record r { content = view }) p.records ∙ rw h
lookup-place id kind (from_payload fs) view entry p h = refl

lookup-place_self :
    (kind : String) (r : OutputRecord) (view : Fields) (entry : SliceEntry) (p : Placed)
    → lookup r.id (place kind (from_record r) view entry p).records
      ≡ some (record r { content = view })
unfolding place
lookup-place_self kind r view entry p =
    lookup-put r.id r.id (record r { content = view }) p.records ∙ rw (eq_refl r.id)

module _ (sha256_hex : String → String) where
  lookup-place_joins :
      (id : String) (item : Json) (js : List Joined) (p : Placed)
      → All (λ j. is_cut_from id j.source ≡ false) js
      → lookup id (place_joins sha256_hex item js p).records ≡ lookup id p.records
  unfolding place_joins
  lookup-place_joins id item [] p h = refl
  lookup-place_joins id item (j ∷ js) p (h, hs) =
      lookup-place_joins id item js _ hs ∙ lookup-place id j.spec.kind j.source _ _ p h

  lookup-place_joins_last :
      (r : OutputRecord) (item : Json) (js : List Joined) (j : Joined) (p : Placed)
      → j.source ≡ from_record r
      → lookup r.id (place_joins sha256_hex item (js ++ j ∷ []) p).records
        ≡ some (record r { content = narrowed_view j.source j.spec.path (picked j item) })
  unfolding place_joins
  lookup-place_joins_last r item [] j p h =
      let narrowed = picked j item in
      let view = narrowed_view j.source j.spec.path narrowed in
      let entry = slice_entry sha256_hex j.spec.kind j.source j.spec.path narrowed view in
      ap (λ s. lookup r.id (place j.spec.kind s view entry p).records) h
      ∙ lookup-place_self j.spec.kind r view entry p
  lookup-place_joins_last r item (k ∷ js) j p h = lookup-place_joins_last r item js j _ h

  module _ (chair : Chair) (over : Over) (r : OutputRecord) (item : Json) (drop : List String)
      (value head : String) (rest : List String) (i : FanOutInstance) (whole : over.carry ≡ none)
      (path : segments over.path ≡ head ∷ rest) where
    -- The records of an instance, as they are placed
    instance_of-records :
        (joins : List Joined)
        → instance_of sha256_hex chair over joins
            (record { item = item; source = from_record r; drop = drop })
            value
          ≡ done i
        → let view = narrowed_view (from_record r) over.path (item ∷ []) in
          i.records
          ≡ (place_joins sha256_hex item joins (
              place over.kind
                (from_record r)
                view
                (slice_entry sha256_hex over.kind (from_record r) over.path (item ∷ []) view)
                (record { records = []; gig_input = []; slices = [] }))).records
    unfolding instance_of
    instance_of-records joins h =
        let (view, seen, h1) = then_split-done _ _ h in
        let same : narrowed_view (from_record r) over.path (item ∷ []) ≡ view = done-eq_done (
          sym (
            ap (λ c. view_of c over.path (narrowed_view (from_record r) over.path (item ∷ [])))
              whole)
          ∙ seen) in
        sym (ap (λ x. x.records) (done-eq_done h1))
        ∙ ap
            (λ v.
              (place_joins sha256_hex item joins (
                place over.kind (from_record r) v
                  (slice_entry sha256_hex over.kind (from_record r) over.path (item ∷ []) v)
                  (record { records = []; gig_input = []; slices = [] }))).records)
            (sym same)

    -- A seat of a chair that carries no fields, and joins no set of the record that it splits, receives in
    -- place of that record a view whose value at the split path is the seat's one item, while every other
    -- top-level field is the record's.
    instance_of_shows :
        (joins : List Joined)
        → All (λ j. is_cut_from r.id j.source ≡ false) joins
        → instance_of sha256_hex chair over joins
            (record { item = item; source = from_record r; drop = drop })
            value
          ≡ done i
        → (view : Fields) × (lookup r.id i.records ≡ some (record r { content = view }))
          × (path_get (some (obj view)) (segments over.path) ≡ some (arr (cons item nil)))
          × ((k : String)
              → (head == k) ≡ false
              → lookup k (entries view) ≡ lookup k (entries r.content))
    unfolding narrowed_view items_of
    instance_of_shows joins apart h = (
      narrowed_view (from_record r) over.path (item ∷ []),
      ap (lookup r.id) (instance_of-records joins h)
          ∙ (lookup-place_joins r.id item joins _ apart ∙ lookup-place_self over.kind r _ _ _),
      ap (λ s. path_get (some (obj (path_set r.content s (arr (cons item nil))))) s) path
          ∙ path_get-path_set r.content head rest (arr (cons item nil)),
      λ k other.
          ap (λ s. lookup k (entries (path_set r.content s (arr (cons item nil))))) path
          ∙ lookup-path_set r.content head rest (arr (cons item nil)) k other,
    )

    -- When the last join of such a chair splits the same record at another top-level field, the seat's view
    -- of the record holds the whole of the split set, as if it had not been split: the view of the join
    -- takes the place of the view of the item.
    pub join_restores_the_set :
        (joins : List Joined) (j : Joined) (other : String) (more : List String)
        → j.source ≡ from_record r
        → segments j.spec.path ≡ other ∷ more
        → (other == head) ≡ false
        → instance_of sha256_hex chair over
            (joins ++ j ∷ [])
            (record { item = item; source = from_record r; drop = drop })
            value
          ≡ done i
        → (view : Fields) × (lookup r.id i.records ≡ some (record r { content = view }))
          × (path_get (some (obj view)) (segments over.path)
              ≡ path_get (some (obj r.content)) (segments over.path))
    unfolding narrowed_view
    join_restores_the_set joins j other more same joined apart h =
        let set = arr (items_of (picked j item)) in
        (
          narrowed_view j.source j.spec.path (picked j item),
          ap (lookup r.id) (instance_of-records (joins ++ j ∷ []) h)
              ∙ lookup-place_joins_last r item joins j _ same,
          ap
                (λ s.
                  path_get (some (obj (path_set s (segments j.spec.path) set)))
                    (segments over.path))
                (ap source_content same)
              ∙ (ap (λ s. path_get (some (obj (path_set r.content s set))) (segments over.path))
                    joined
                  ∙ (ap (λ s. path_get (some (obj (path_set r.content (other ∷ more) set))) s) path
                      ∙ (path_get-path_set_other r.content other more set head rest apart
                          ∙ ap (λ s. path_get (some (obj r.content)) s) (sym path)))),
        )
