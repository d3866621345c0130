-- ===== src/Ledger/File.antt =====
-- `FileLedger` of src/ledger.ts: the text of the file, a line for each entry. `JSON.parse` is an argument, as
-- are the failures of the disk, which leave the text as it was.
use Prim.Native.Char.{code}
use coltrane.Base.{
  lines, ℕ, zero, suc, String, Bool, true, false, not, ◌&&◌, ◌||◌, ◌⊎◌, inl, inr, Option, none,
  some, List, [], ◌∷◌, ◌++◌, ◌==◌, Dict, keep, includes, length, eqb, glue, trim, is_some, or_else,
  if◌then◌else◌,
}
use coltrane.Base.Json.{Json, Fields, null, bool, num, str, arr, obj, nil, cons}
use coltrane.Canonical.{of_entries}
use coltrane.Canonical.Printing.{stringify}
use coltrane.Ledger.{
  at, text_or_empty, is_hex, LedgerError, Validity, validate_entry, LedgerCorruption,
  LedgerIntegrityReport, Ledger, matches,
}

unfoldable slice_to : ℕ → String → String
slice_to n String.[] = String.[]
slice_to zero (String.◌∷◌ c s) = String.[]
slice_to (suc n) (String.◌∷◌ c s) = String.◌∷◌ c (slice_to n s)

-- `s.slice(prefix.length)`, when `s` starts with the prefix
unfoldable after_prefix : String → String → String
after_prefix String.[] s = s
after_prefix (String.◌∷◌ c prefix) String.[] = ""
after_prefix (String.◌∷◌ c prefix) (String.◌∷◌ d s) =
    let rest = after_prefix prefix s in if eqb (code c) (code d) then rest else ""

abbrev governance_events : List String
governance_events =
    "charter_suggest_update" ∷ "proposal_create" ∷ "gig_abort" ∷ "tool_register" ∷ "agent_promote"
    ∷ "standard_promote" ∷ "skill_promote" ∷ "session_review_write" ∷ "learning_synthesize" ∷ []

abbrev mutation_events : List String
mutation_events =
    "agent_define" ∷ "agent_evolve" ∷ "standard_compose" ∷ "type_register" ∷ "type_extend"
    ∷ "skill_define" ∷ []

-- `...(test ? { k: v } : {})`
abbrev when : Bool → String → Json → Dict Json
when true k v = (k, v) ∷ []
when false k v = []

abbrev listed : Option Json → Json
listed (some (arr xs)) = arr xs
listed v = arr nil

abbrev first_text : Json → String
first_text (arr (cons (str s) xs)) = s
first_text v = ""

abbrev finished : Option Json → String → String
finished (some (str s)) started_at = s
finished v started_at = started_at

abbrev is_text : Option Json → Bool
is_text (some (str s)) = true
is_text v = false

abbrev is_truthy : Option Json → Bool
is_truthy none = false
is_truthy (some null) = false
is_truthy (some (bool b)) = b
is_truthy (some (num n)) = not (eqb n 0)
is_truthy (some (str s)) = not (s == "")
is_truthy (some v) = true

-- `upgradeV1`
unfoldable pub upgrade_v1 : Fields → Fields
unfolding after_prefix is_hex includes of_entries
upgrade_v1 row =
    let event = text_or_empty (at "standard_slug" row) in
    let gig_id = text_or_empty (at "gig_id" row) in
    let started_at = text_or_empty (at "started_at" row) in
    let output_hashes = listed (at "output_hashes" row) in
    let subject = after_prefix "abort:" gig_id in
    let genome_hash = text_or_empty (at "genome_hash" row) in
    let fingerprint = text_or_empty (at "run_fingerprint" row) in
    let content = first_text output_hashes in
    let base : Dict Json =
      ("schema_version", num 2)
      ∷ ("entry_id", str gig_id)
      ∷ ("output_hashes", output_hashes)
      ∷ ("started_at", str started_at)
      ∷ ("finished_at", str (finished (at "finished_at" row) started_at))
      ∷ ("legacy", bool true)
      ∷ [] in
    of_entries (
      if includes event governance_events
      then base
        ++ ("kind", str "governance")
          ∷ ("event", str event)
          ∷ when (not (subject == "")) "subject_gig_id" (str subject)
      else if includes event mutation_events
      then base
        ++ ("kind", str "genome_mutation")
          ∷ ("event", str event)
          ∷ when (is_hex genome_hash 0) "effective_hash" (str genome_hash)
        ++ when (is_hex content 0) "content_hash" (str content)
      else base
        ++ ("kind", str "gig")
          ∷ ("gig_id", str gig_id)
          ∷ ("standard_slug", str event)
          ∷ when (is_text (at "genome_hash" row) && not (genome_hash == "n/a")) "genome_hash"
              (str genome_hash)
        ++ when (is_text (at "run_fingerprint" row) && not (fingerprint == "n/a")) "run_fingerprint"
            (str fingerprint)
        ++ when (is_truthy (at "usage" row)) "usage" (or_else (at "usage" row) null))

-- What a line holds: a row, upgraded when it is of the first version, or nothing that can be read
abbrev pub row_of : Option Json → Option Fields
row_of (some (obj row)) =
    some
      (if is_some (at "kind" row) || is_some (at "schema_version" row) then row else upgrade_v1 row)
row_of v = none

pub record Contents : Type 0 where
  pub rows : List Fields
  pub corrupt : List LedgerCorruption

abbrev pub add_row : ℕ → String → Option Fields → Contents → Contents
add_row i line (some row) rest = record rest { rows = row ∷ rest.rows }
add_row i line none rest = record rest {
  corrupt = record { line_no = i; preview = line } ∷ rest.corrupt;
}

abbrev pub line_for : Fields → String
line_for e = stringify (obj e)

abbrev pub unless_invalid : Validity → String → LedgerError ⊎ String
unless_invalid none text = inr text
unless_invalid (some why) text = inl why

unfoldable pub file_append : Fields → String → LedgerError ⊎ String
file_append e text = unless_invalid (validate_entry e) (glue text (glue (line_for e) "\n"))

abbrev pub report : String → Contents → LedgerIntegrityReport
report path found = record {
  ok = eqb (length found.corrupt) 0;
  path = path;
  entries = length found.rows;
  corrupt = found.corrupt;
}

module _ (parse : String → Option Json) where
  -- The lines from number `i` on
  unfoldable pub read_lines : ℕ → List String → Contents
  unfolding upgrade_v1 slice_to
  read_lines i [] = record { rows = []; corrupt = [] }
  read_lines i (raw ∷ more) =
      let rest = read_lines (suc i) more in
      if trim raw == ""
      then rest
      else add_row i (slice_to 120 (trim raw)) (row_of (parse (trim raw))) rest

  unfoldable pub read_file : String → Contents
  unfolding lines read_lines
  read_file text = read_lines 1 (lines text)

  unfoldable pub file_ledger : (Option Json → String) → String → Ledger String
  unfolding file_append read_file matches
  file_ledger shown path = record {
    append = file_append;
    query = λ q text. keep (matches shown q) (read_file text).rows;
    count = λ q text. length (keep (matches shown q) (read_file text).rows);
    integrity = λ text. report path (read_file text);
  }
