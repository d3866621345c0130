-- ===== src/Ledger/Tests.antt =====
-- The ledgers of src/ledger.ts on small inputs.
use mathlib.Core.List.{Permᴰ}
use coltrane.Base.{
  is_line, false, String, true, ◌≡◌, refl, Option, none, some, [], ◌∷◌, ◌==◌, keep, includes, trim,
  glue, lookup, all, if◌then◌else◌,
}
use coltrane.Base.Json.{Json, Fields, str, arr, obj, nil}
use coltrane.Canonical.{of_entries}
use coltrane.Canonical.Printing.{stringify}
use coltrane.Ledger.{
  requires_hex, validate_entry, LedgerQuery, memory_ledger, split_ledger, append_all, first_error,
}
use coltrane.Ledger.Split.{genome_first, split_ledger_refines}
use coltrane.Ledger.File.{read_file, file_append, file_ledger}
use coltrane.Ledger.Written.{file_ledger_refines}
use coltrane.Ledger.Damage.{torn_append_lost}

abbrev hash : String
hash = "0123456789abcdef0123456789abcdef0123456789abcdef0123456789abcdef"

abbrev mutation : Fields
mutation = of_entries (
    ("kind", str "genome_mutation")
    ∷ ("entry_id", str "m1")
    ∷ ("started_at", str "2026-01-01")
    ∷ ("finished_at", str "2026-01-01")
    ∷ ("output_hashes", arr nil)
    ∷ ("event", str "agent_define")
    ∷ ("subject_slug", str "sax")
    ∷ ("content_hash", str hash)
    ∷ ("effective_hash", str hash)
    ∷ [])

abbrev closed_gig : Fields
closed_gig = of_entries (
    ("kind", str "gig")
    ∷ ("entry_id", str "g1")
    ∷ ("started_at", str "2026-01-02")
    ∷ ("finished_at", str "2026-01-03")
    ∷ ("output_hashes", arr nil)
    ∷ ("gig_id", str "g1")
    ∷ ("standard_slug", str "blues")
    ∷ ("genome_hash", str hash)
    ∷ ("run_fingerprint", str hash)
    ∷ [])

abbrev unhashed_gig : Fields
unhashed_gig = of_entries (
    ("kind", str "gig")
    ∷ ("entry_id", str "g2")
    ∷ ("started_at", str "2026-01-02")
    ∷ ("finished_at", str "2026-01-03")
    ∷ ("output_hashes", arr nil)
    ∷ ("gig_id", str "g2")
    ∷ ("standard_slug", str "blues")
    ∷ ("genome_hash", str "n/a")
    ∷ [])

valid : validate_entry closed_gig ≡ none
unfolding of_entries validate_entry first_error includes lookup
valid = refl

unhashed : validate_entry unhashed_gig ≡ some (requires_hex "genome_hash")
unfolding of_entries validate_entry first_error includes lookup
unhashed = refl

abbrev shown : Option Json → String
shown v = "undefined"

abbrev anything : LedgerQuery
anything = record { kind = ""; fields = []; after = "2026-01-01"; before = "" }

-- The part of the genome comes first, whatever was appended first.
split_order :
    (split_ledger (memory_ledger shown) (memory_ledger shown)).query anything (
      append_all
        (split_ledger (memory_ledger shown) (memory_ledger shown))
        (closed_gig ∷ unhashed_gig ∷ mutation ∷ [])
        ([], []))
    ≡ mutation ∷ closed_gig ∷ []
unfolding of_entries split_ledger memory_ledger append_all validate_entry first_error includes keep
    all lookup
split_order = refl

split_ledger_refines_example :
    let es = closed_gig ∷ unhashed_gig ∷ mutation ∷ [] in
    let one = memory_ledger shown in
    let split = append_all (split_ledger one one) es ([], []) in
    let whole = append_all one es [] in
    let two = split_ledger one one in
    Permᴰ (two.query anything split) (one.query anything whole)
    × (includes anything.kind ("gig" ∷ "genome_mutation" ∷ "governance" ∷ "chair_spend" ∷ []) ≡ true
        → two.query anything split ≡ one.query anything whole)
    × (includes anything.kind ("gig" ∷ "genome_mutation" ∷ "governance" ∷ "chair_spend" ∷ [])
          ≡ false
        → two.query anything split ≡ genome_first (one.query anything whole))
    × (two.count anything split ≡ one.count anything whole)
    × ((two.integrity split).entries ≡ (one.integrity whole).entries)
split_ledger_refines_example =
    split_ledger_refines shown (closed_gig ∷ unhashed_gig ∷ mutation ∷ []) anything

abbrev abort : Fields
abort = of_entries (
    ("kind", str "governance")
    ∷ ("entry_id", str "a1")
    ∷ ("started_at", str "2026")
    ∷ ("finished_at", str "2026")
    ∷ ("output_hashes", arr nil)
    ∷ ("event", str "gig_abort")
    ∷ ("subject_slug", str "g1")
    ∷ [])

abbrev abort_line : String
abort_line =
    "{\"kind\":\"governance\",\"entry_id\":\"a1\",\"started_at\":\"2026\",\"finished_at\":\"2026\",\"output_hashes\":[],\"event\":\"gig_abort\",\"subject_slug\":\"g1\"}"

-- A reader that knows one line
abbrev parse : String → Option Json
parse s = if s == abort_line then some (obj abort) else none

file_ledger_refines_example :
    let file = file_ledger parse shown "ledger.jsonl" in
    let memory = memory_ledger shown in
    let text = append_all file (abort ∷ abort ∷ []) "" in
    let rows = append_all memory (abort ∷ abort ∷ []) [] in
    (file.query anything text ≡ memory.query anything rows)
    × (file.count anything text ≡ memory.count anything rows)
    × (file.integrity text ≡ record (memory.integrity rows) { path = "ledger.jsonl" })
unfolding of_entries stringify
file_ledger_refines_example =
    file_ledger_refines parse shown "ledger.jsonl" (abort ∷ abort ∷ []) anything (refl, (refl, tt))

torn_append_lost_example :
    (read_file parse (glue "{}\n{\"kind" (glue abort_line "\n"))).rows
    ≡ (read_file parse "{}\n{\"kind").rows
unfolding of_entries stringify file_append validate_entry first_error includes lookup trim is_line
torn_append_lost_example =
    torn_append_lost parse abort "{}" "{\"kind" (glue "{}\n{\"kind" (glue abort_line "\n")) refl
      refl refl refl
