-- ===== src/Portfolio/Tests.antt =====
-- A parked project, and the theorems on it.
use coltrane.Base.{
  String, ◌≡◌, refl, ap, lookup, inr, none, some, ◌==◌, eq_refl, glue, trim, lines, find,
  if◌then◌else◌,
}
use coltrane.Base.Json.{Json, obj, str, Fields, field, end}
use coltrane.Canonical.{of_entries}
use coltrane.Canonical.Printing.{stringify}
use coltrane.Portfolio.{
  PortfolioEntry, PortfolioRow, Line, row, unreadable, row_line, row_fields, append_row,
  ParkOptions, parked_entry, park_genome, read_all_rows, resumed, not_found, resume_genome,
  last_park, suggest_next_action,
}
use coltrane.Portfolio.Sealed.{park_row, live_row, park_resume}

abbrev opts : ParkOptions
opts = record { current_phase = some "define"; current_standard_slug = none }

abbrev sketch : Fields
sketch = field "key" (str "Gb") end

abbrev one_seal : Json → String
one_seal state = "abc"

abbrev blue : PortfolioEntry
blue = parked_entry "blue" "abc" opts "1" none

abbrev blue_row : PortfolioRow
blue_row = park_row blue sketch

-- A reader that knows one line
abbrev parse : String → Line
parse s = if s == row_line blue_row then row blue_row else unreadable

reads_blue : parse (row_line blue_row) ≡ row blue_row
reads_blue = ap (λ b. if b then row blue_row else unreadable) (eq_refl (row_line blue_row))

park_resume_example :
    (live : PortfolioEntry) × (resume_genome parse one_seal "blue" "2"
        (glue (append_row "{\n" blue_row) "}")
      ≡ resumed live
          (obj sketch)
          (glue (glue (append_row "{\n" blue_row) "}") (glue (row_line (live_row live)) "\n")))
    × (live.genome_slug ≡ "blue")
    × (live.current_phase ≡ blue.current_phase)
    × (live.current_standard_slug ≡ blue.current_standard_slug)
    × (live.last_touched_utc ≡ "2")
    × (live.sealed_state_hash ≡ none)
    × (live.parked_at_utc ≡ none)
unfolding park_genome last_park read_all_rows lines trim row_fields of_entries stringify
    suggest_next_action lookup find
park_resume_example =
    park_resume parse one_seal "blue" sketch opts "1" "2" "{\n" (append_row "{\n" blue_row) "}" blue
      (inr ("{", refl)) refl reads_blue refl

-- A row that is parked on a torn line is not found.
torn_park : resume_genome parse one_seal "blue" "2" (append_row "{\n{" blue_row) ≡ not_found
unfolding resume_genome park_genome last_park read_all_rows lines trim row_fields of_entries
    stringify suggest_next_action lookup find
torn_park = refl
