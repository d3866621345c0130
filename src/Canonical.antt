-- ===== src/Canonical.antt =====
-- src/canonical_form.ts: the text that a value is hashed by. A value is JSON, whose objects state each
-- key once; a number is a natural number, printed in decimal. The digest `sha256Hex` is an argument.
pub mod Printing
mod Facts
mod Forms
mod Structure
mod Density
mod Contents
mod Fingerprints
mod Tests
use Prim.Native.Char.{code}
use coltrane.Base.{
  ℕ, String, Bool, true, false, not, ◌&&◌, ◌||◌, Option, none, some, List, [], ◌∷◌, ◌++◌, ◌==◌, map,
  includes, sorted, sort_keys, str_leb, Dict, glue, eqb, if◌then◌else◌,
}
use coltrane.Base.Json.{Json, Items, Fields, null, bool, num, str, arr, obj, nil, cons, end, field}
use coltrane.Canonical.Printing.{stringify}

abbrev pub canonical_form_version : String
canonical_form_version = "1.1"

abbrev excluded_fields : List String
excluded_fields = "content_hash" ∷ "materialized_at" ∷ "last_seen" ∷ []

-- A key that is left out, or lost: `sorted["__proto__"] = v` makes no key.
unfoldable pub is_excluded : String → Bool
is_excluded k = includes k excluded_fields || k == "__proto__"

-- The object with these entries, in this order
unfoldable pub of_entries : Dict Json → Fields
of_entries [] = end
of_entries ((k, v) ∷ m) = field k v (of_entries m)

-- `stripAndSortKeys`: the kept entries of an object are canonicalized, and then sorted.
unfoldable mutual
  unfolding is_excluded sort_keys of_entries

  pub strip_and_sort_keys : Json → Json
  strip_and_sort_keys (arr xs) = arr (strip_items xs)
  strip_and_sort_keys (obj fs) = obj (of_entries (sort_keys (strip_fields fs)))
  strip_and_sort_keys null = null
  strip_and_sort_keys (bool b) = bool b
  strip_and_sort_keys (num n) = num n
  strip_and_sort_keys (str s) = str s

  pub strip_items : Items → Items
  strip_items nil = nil
  strip_items (cons v xs) = cons (strip_and_sort_keys v) (strip_items xs)

  pub strip_fields : Fields → Dict Json
  strip_fields end = []
  strip_fields (field k v fs) =
      let rest = strip_fields fs in
      if is_excluded k then rest else (k, strip_and_sort_keys v) ∷ rest

unfoldable pub is_empty_value : Json → Bool
is_empty_value null = true
is_empty_value (arr nil) = true
is_empty_value (obj end) = true
is_empty_value _ = false

-- `if (skip) continue; sorted[k] = inner;`
unfoldable pub add_unless : Bool → String → Json → Dict Json → Dict Json
add_unless true k inner rest = rest
add_unless false k inner rest = (k, inner) ∷ rest

-- `stripStructural`
unfoldable mutual
  unfolding is_excluded sort_keys of_entries is_empty_value add_unless

  pub strip_structural : Json → Json
  strip_structural (arr xs) = arr (structural_items xs)
  strip_structural (obj fs) = obj (of_entries (sort_keys (structural_fields fs)))
  strip_structural null = null
  strip_structural (bool b) = bool b
  strip_structural (num n) = num n
  strip_structural (str s) = str s

  pub structural_items : Items → Items
  structural_items nil = nil
  structural_items (cons v xs) = cons (strip_structural v) (structural_items xs)

  pub structural_fields : Fields → Dict Json
  structural_fields end = []
  structural_fields (field k v fs) =
      let inner = strip_structural v in
      add_unless (is_excluded k || is_empty_value inner) k inner (structural_fields fs)

unfoldable pub canon_json : Json → String
unfolding strip_and_sort_keys stringify
canon_json v = stringify (strip_and_sort_keys v)

unfoldable pub canon_structural_json : Json → String
unfolding strip_structural stringify
canon_structural_json v = stringify (strip_structural v)

abbrev starts_line : String → Bool
starts_line String.[] = false
starts_line (String.◌∷◌ c s) = eqb (code c) 10

-- `value.replace(/\r\n/g, "\n")`
unfoldable pub unix_lines : String → String
unix_lines String.[] = String.[]
unix_lines (String.◌∷◌ c s) =
    let rest = unix_lines s in if eqb (code c) 13 && starts_line s then rest else String.◌∷◌ c rest

unfoldable pub only_newlines : String → Bool
only_newlines String.[] = true
only_newlines (String.◌∷◌ c s) = eqb (code c) 10 && only_newlines s

-- `lf.replace(/\n+$/, "")`
unfoldable pub drop_newlines : String → String
unfolding only_newlines
drop_newlines String.[] = String.[]
drop_newlines (String.◌∷◌ c s) =
    let rest = drop_newlines s in
    if eqb (code c) 10 && only_newlines s then String.[] else String.◌∷◌ c rest

unfoldable pub canon_text : String → String
unfolding unix_lines drop_newlines
canon_text value = glue (drop_newlines (unix_lines value)) "\n"

-- `xs.join(separator)`
unfoldable pub join : String → List String → String
join separator [] = ""
join separator (x ∷ []) = x
join separator (x ∷ y ∷ xs) = glue x (glue separator (join separator (y ∷ xs)))

-- `[[k, v], …]`
unfoldable pub pairs : Dict String → Items
pairs [] = nil
pairs ((k, v) ∷ m) = cons (arr (cons (str k) (cons (str v) nil))) (pairs m)

pub record OutputContent : Type 0 where
  pub core_type : String
  pub domain_type : String
  pub domain_type_version : ℕ
  pub domain : String
  pub primitive : String
  pub phase : Option String
  pub agent_slug : String
  pub content : Json

unfoldable pub phase_field : Option String → Fields → Fields
phase_field none rest = rest
phase_field (some p) rest = field "phase" (str p) rest

-- The members of the object that is hashed. A phase that is not given is left out of the text.
unfoldable pub content_members : Option String → OutputContent → Fields
unfolding phase_field
content_members phase r = field "core_type" (str r.core_type) (
    field "domain_type" (str r.domain_type) (
      field "domain_type_version" (num r.domain_type_version) (
        field "domain" (str r.domain) (
          field "primitive" (str r.primitive) (
            phase_field phase
              (field "agent_slug" (str r.agent_slug) (field "data" r.content end)))))))

unfoldable pub content_fields : OutputContent → Fields
unfolding content_members
content_fields r = content_members r.phase r

-- A score is a number of the engine, with the text that a template string shows it by.
module _ {V : Type 0} (shown : V → String) where
  unfoldable pub score_lines : Dict V → List String
  score_lines [] = []
  score_lines ((k, v) ∷ m) = glue k (glue ":" (shown v)) ∷ score_lines m

pub record RunFingerprintInput (V : Type 0) : Type 0 where
  pub genome_hash : String
  pub model_version : String
  pub form_version : String
  pub eval_scores : Dict V
  pub output_hashes : List String
  pub unresolved_evals : List String

unfoldable pub unresolved_lines : List String → List String
unresolved_lines [] = []
unresolved_lines (x ∷ xs) = glue "unresolved_evals:" (join "," (sorted (x ∷ xs))) ∷ []

unfoldable pub fingerprint_lines : {V : Type 0} → (V → String) → RunFingerprintInput V → List String
unfolding score_lines unresolved_lines join
fingerprint_lines shown input =
    glue "genome_hash:" input.genome_hash
    ∷ glue "model_version:" input.model_version
    ∷ glue "canonical_form_version:" input.form_version
    ∷ glue "eval_scores:" (join "," (score_lines shown (sort_keys input.eval_scores)))
    ∷ glue "output_hashes:" (join "," (sorted input.output_hashes))
    ∷ unresolved_lines input.unresolved_evals

pub data DependencyClass : Type 0 where
  of_type of_agent of_standard of_skill of_eval : DependencyClass

abbrev class_text : DependencyClass → String
class_text of_type = "type"
class_text of_agent = "agent"
class_text of_standard = "standard"
class_text of_skill = "skill"
class_text of_eval = "eval"

pub record DirectDependency : Type 0 where
  pub kind : DependencyClass
  pub slug : String
  pub effective_hash : String

-- Whether the first of two dependencies stays before the second when they are sorted
abbrev comes_first : DirectDependency → DirectDependency → Bool
comes_first a b =
    if class_text a.kind == class_text b.kind
    then str_leb a.slug b.slug
    else str_leb (class_text a.kind) (class_text b.kind)

unfoldable insert_dependency : DirectDependency → List DirectDependency → List DirectDependency
insert_dependency d [] = d ∷ []
insert_dependency d (e ∷ es) =
    let rest = insert_dependency d es in if comes_first d e then d ∷ e ∷ es else e ∷ rest

unfoldable sorted_dependencies : List DirectDependency → List DirectDependency
unfolding insert_dependency
sorted_dependencies [] = []
sorted_dependencies (d ∷ ds) = insert_dependency d (sorted_dependencies ds)

unfoldable triples : List DirectDependency → Items
triples [] = nil
triples (d ∷ ds) =
    cons
      (arr (cons (str (class_text d.kind)) (cons (str d.slug) (cons (str d.effective_hash) nil))))
      (triples ds)

module _ (sha256_hex : String → String) where
  unfoldable dependency_hash : List DirectDependency → String
  unfolding sorted_dependencies triples stringify
  dependency_hash deps = sha256_hex (stringify (arr (triples (sorted_dependencies deps))))

module _ (sha256_hex : String → String) where
  unfoldable pub file_hash_json : Json → String
  unfolding canon_json
  file_hash_json value = sha256_hex (canon_json value)

  unfoldable pub file_hash_text : String → String
  unfolding canon_text
  file_hash_text text = sha256_hex (canon_text text)

  -- The files of a definition, by path, with their hashes
  unfoldable pub definition_hash : Dict String → String
  unfolding sort_keys pairs stringify
  definition_hash files = sha256_hex (stringify (arr (pairs (sort_keys files))))

  unfoldable pub output_content_hash : OutputContent → String
  unfolding content_fields canon_json
  output_content_hash r = sha256_hex (canon_json (obj (content_fields r)))

  unfoldable pub run_fingerprint : {V : Type 0} → (V → String) → RunFingerprintInput V → String
  unfolding fingerprint_lines join
  run_fingerprint shown input = sha256_hex (glue (join "\n" (fingerprint_lines shown input)) "\n")

  unfoldable pub effective_hash : String → String → String
  effective_hash content_hash dependency_hash =
      sha256_hex
        (glue canonical_form_version (glue "|" (glue content_hash (glue "|" dependency_hash))))
