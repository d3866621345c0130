-- ===== src/Portfolio.antt =====
-- src/portfolio.ts: projects parked and resumed on an append-only log, the text of a file. What `JSON.parse`
-- makes of a line is an argument; a row with an entry and a slug is taken to have the fields of a
-- `PortfolioEntry`. The seal of a state, `sha256Hex(canonJson(state))`, and the clock are arguments; the log
-- is that of one root, so the choice of its path is left out.
mod Sealed
mod Tests
use coltrane.Base.{
  String, Bool, true, false, not, ◌&&◌, Option, none, some, List, [], ◌∷◌, ◌++◌, ◌==◌, Dict, lookup,
  put, lines, trim, find, str_leb, or_else, glue, if◌then◌else◌, is_some,
}
use coltrane.Base.Json.{Json, Fields, null, str, obj, end}
use mathlib.Core.Option
use coltrane.Canonical.{of_entries}
use coltrane.Canonical.Printing.{stringify}

pub record PortfolioEntry : Type 0 where
  pub genome_slug : String
  pub current_phase : String
  pub current_standard_slug : Option String
  pub last_touched_utc : String
  pub sealed_state_hash : Option String
  pub next_natural_action : String
  pub parked_at_utc : Option String

pub data Event : Type 0 where
  park resume touch : Event

pub record PortfolioRow : Type 0 where
  pub event : Event
  pub entry : PortfolioEntry
  pub state : Option Json

-- What `JSON.parse` makes of a line: a row, null, another value that is no row of an entry with a slug, or
-- nothing
pub data Line : Type 0 where
  row : PortfolioRow → Line
  null_line no_row unreadable : Line

abbrev text_of : Event → String
text_of park = "park"
text_of resume = "resume"
text_of touch = "touch"

abbrev or_null : Option String → Json
or_null none = null
or_null (some s) = str s

abbrev entry_fields : PortfolioEntry → Dict Json
entry_fields e =
    ("genome_slug", str e.genome_slug)
    ∷ ("current_phase", str e.current_phase)
    ∷ ("current_standard_slug", or_null e.current_standard_slug)
    ∷ ("last_touched_utc", str e.last_touched_utc)
    ∷ ("sealed_state_hash", or_null e.sealed_state_hash)
    ∷ ("next_natural_action", str e.next_natural_action)
    ∷ ("parked_at_utc", or_null e.parked_at_utc)
    ∷ []

abbrev state_field : Option Json → Dict Json
state_field none = []
state_field (some v) = ("state", v) ∷ []

-- The object that a row is
unfoldable pub row_fields : PortfolioRow → Fields
unfolding of_entries
row_fields r = of_entries (
    ("event", str (text_of r.event))
    ∷ ("entry", obj (of_entries (entry_fields r.entry)))
    ∷ state_field r.state)

abbrev pub row_line : PortfolioRow → String
row_line r = stringify (obj (row_fields r))

-- `appendRow`, on the text of the file
unfoldable pub append_row : String → PortfolioRow → String
append_row log r = glue log (glue (row_line r) "\n")

abbrev pub add_line : Line → List Line → List Line
add_line unreadable rows = rows
add_line l rows = l ∷ rows

-- The entries by slug; `row.entry` of null throws.
unfoldable pub latest : List Line → Dict PortfolioEntry → Option (Dict PortfolioEntry)
latest [] m = some m
latest (row r ∷ rows) m = latest rows (put r.entry.genome_slug r.entry m)
latest (null_line ∷ rows) m = none
latest (no_row ∷ rows) m = latest rows m
latest (unreadable ∷ rows) m = latest rows m

unfoldable pub insert_entry : PortfolioEntry → List PortfolioEntry → List PortfolioEntry
insert_entry e [] = e ∷ []
insert_entry e (d ∷ ds) =
    let rest = insert_entry e ds in
    if str_leb e.genome_slug d.genome_slug then e ∷ d ∷ ds else d ∷ rest

unfoldable pub by_slug : Dict PortfolioEntry → List PortfolioEntry
unfolding insert_entry
by_slug [] = []
by_slug ((k, e) ∷ m) = insert_entry e (by_slug m)

abbrev pub verbs_by_phase : Dict String
verbs_by_phase =
    ("voice", "Voice the in-flight thought")
    ∷ ("spin", "Spin up the project genome")
    ∷ ("discover", "Diverge — survey the problem space")
    ∷ ("define", "Converge — name the falsifiable")
    ∷ ("develop", "Generate the files under the sealed charter")
    ∷ ("deliver", "Ripen the verdict")
    ∷ ("context-switch", "Switch to a different project slug")
    ∷ ("return-later", "Restore from the sealed park entry")
    ∷ []

unfoldable pub suggest_next_action : PortfolioEntry → String
suggest_next_action entry =
    let verb =
      or_else (lookup entry.current_phase verbs_by_phase)
        (glue "Continue at phase=" entry.current_phase) in
    let status = if is_some entry.parked_at_utc then "parked" else "current" in
    glue "[" (
      glue status (
        glue "] " (
          glue verb
            (glue " (standard=" (glue (or_else entry.current_standard_slug "no-standard") ")")))))

-- `current_standard_slug` is absent, null or a text.
pub record ParkOptions : Type 0 where
  pub current_phase : Option String
  pub current_standard_slug : Option (Option String)

abbrev pub prior_phase : Option PortfolioEntry → String
prior_phase none = "voice"
prior_phase (some e) = e.current_phase

abbrev pub prior_standard : Option PortfolioEntry → Option String
prior_standard none = none
prior_standard (some e) = e.current_standard_slug

abbrev pub with_action : PortfolioEntry → PortfolioEntry
with_action e = record e { next_natural_action = suggest_next_action e }

abbrev pub parked_entry :
    String → String → ParkOptions → String → Option PortfolioEntry → PortfolioEntry
parked_entry slug hash opts now prior = with_action (record {
  genome_slug = slug;
  current_phase = or_else opts.current_phase (prior_phase prior);
  current_standard_slug = or_else opts.current_standard_slug (prior_standard prior);
  last_touched_utc = now;
  sealed_state_hash = some hash;
  next_natural_action = "";
  parked_at_utc = some now;
})

abbrev pub is_park : Event → Bool
is_park park = true
is_park _ = false

abbrev pub parks : String → PortfolioRow → Bool
parks slug r = is_park r.event && r.entry.genome_slug == slug

-- What the loop from the end finds: `row.event` of null throws.
pub data Found : Type 0 where
  found : PortfolioRow → Found
  nothing throws : Found

abbrev pub or_this : Found → String → Line → Found
or_this nothing slug (row r) = if parks slug r then found r else nothing
or_this nothing slug null_line = throws
or_this nothing slug l = nothing
or_this later slug l = later

unfoldable pub last_park : String → List Line → Found
last_park slug [] = nothing
last_park slug (l ∷ rows) = or_this (last_park slug rows) slug l

pub data ParkResult : Type 0 where
  park_throws : ParkResult
  parked : PortfolioEntry → String → ParkResult

pub data ResumeResult : Type 0 where
  not_found resume_throws : ResumeResult
  seal_mismatch : String → String → ResumeResult
  resumed : PortfolioEntry → Json → String → ResumeResult

abbrev pub resumed_entry : String → String → PortfolioEntry → PortfolioEntry
resumed_entry slug now prior = with_action (record {
  genome_slug = slug;
  current_phase = prior.current_phase;
  current_standard_slug = prior.current_standard_slug;
  last_touched_utc = now;
  sealed_state_hash = none;
  next_natural_action = "";
  parked_at_utc = none;
})

-- `row.state ?? {}`: a null is replaced as well.
abbrev pub state_of : Option Json → Json
state_of none = obj end
state_of (some Json.null) = obj end
state_of (some v) = v

abbrev pub breaks_seal : Option String → String → Option String
breaks_seal none recomputed = none
breaks_seal (some recorded) recomputed = if recorded == recomputed then none else some recorded

abbrev pub resume_outcome :
    String → String → String → PortfolioRow → String → Option String → ResumeResult
resume_outcome slug now log r recomputed (some recorded) = seal_mismatch recorded recomputed
resume_outcome slug now log r recomputed none =
    let entry = resumed_entry slug now r.entry in
    resumed entry (state_of r.state)
      (append_row log (record { event = resume; entry = entry; state = none }))

abbrev pub resume_row : (Json → String) → String → String → String → Found → ResumeResult
resume_row seal slug now log nothing = not_found
resume_row seal slug now log throws = resume_throws
resume_row seal slug now log (found r) =
    let recomputed = seal (state_of r.state) in
    resume_outcome slug now log r recomputed (breaks_seal r.entry.sealed_state_hash recomputed)

module _ (parse : String → Line) where
  abbrev pub line_of : String → List Line → List Line
  line_of raw rows = if trim raw == "" then rows else add_line (parse (trim raw)) rows

  unfoldable pub rows_of : List String → List Line
  rows_of [] = []
  rows_of (raw ∷ more) = line_of raw (rows_of more)

  -- `readAllRows`
  unfoldable pub read_all_rows : String → List Line
  unfolding rows_of
  read_all_rows log = rows_of (lines log)

  unfoldable pub list_portfolio : String → Option (List PortfolioEntry)
  unfolding by_slug latest read_all_rows
  list_portfolio log = Option.map by_slug (latest (read_all_rows log) [])

  abbrev pub park_as :
      (Json → String)
      → String
      → Json
      → ParkOptions
      → String
      → String
      → Option (List PortfolioEntry)
      → ParkResult
  park_as seal slug state opts now log none = park_throws
  park_as seal slug state opts now log (some entries) =
      let entry =
        parked_entry slug (seal state) opts now (find (λ e. e.genome_slug == slug) entries) in
      parked entry (append_row log (record { event = park; entry = entry; state = some state }))

  unfoldable pub park_genome :
      (Json → String) → String → Json → ParkOptions → String → String → ParkResult
  unfolding list_portfolio append_row
  park_genome seal slug state opts now log =
      park_as seal slug state opts now log (list_portfolio log)

  unfoldable pub resume_genome : (Json → String) → String → String → String → ResumeResult
  unfolding last_park read_all_rows append_row
  resume_genome seal slug now log =
      resume_row seal slug now log (last_park slug (read_all_rows log))
