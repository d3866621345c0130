-- ===== src/Portfolio/Sealed.antt =====
-- Parking and resuming in src/portfolio.ts.
use text.Mathlib.TextLemmas.{append_assoc, nil-append}
use coltrane.Base.{
  String, ◌≡◌, refl, sym, ap, ◌∙◌, ◌⊎◌, inl, inr, true, none, some, Option, List, [], ◌∷◌, ◌++◌,
  ◌==◌, eq_iff, eq_refl, glue, trim, lines, lines-break, lines-one, is_line, is_line-glue, find,
  if◌then◌else◌, Bool-cases,
}
use coltrane.Base.Json.{Json, obj, Fields}
use coltrane.Canonical.Printing.Lines.{stringify-is_line, stringify-trim, stringify-solid}
use coltrane.Portfolio.{
  PortfolioEntry, PortfolioRow, park, resume, Line, row, null_line, no_row, unreadable, row_line,
  row_fields, append_row, add_line, ParkOptions, parked_entry, park_as, park_genome, parks, or_this,
  last_park, Found, found, nothing, throws, parked, resumed, not_found, resumed_entry, breaks_seal,
  resume_row, resume_outcome, resume_genome, rows_of, read_all_rows,
}

-- The row that `parkGenome` appends
abbrev pub park_row : PortfolioEntry → Fields → PortfolioRow
park_row entry state = record { event = park; entry = entry; state = some (obj state) }

-- The row that `resumeGenome` appends
abbrev pub live_row : PortfolioEntry → PortfolioRow
live_row entry = record { event = resume; entry = entry; state = none }

later_park :
    (slug : String) (xs ys : List Line) (r : PortfolioRow)
    → last_park slug ys ≡ found r
    → last_park slug (xs ++ ys) ≡ found r
unfolding last_park
later_park slug [] ys r h = h
later_park slug (x ∷ xs) ys r h = ap (λ l. or_this l slug x) (later_park slug xs ys r h)

or_this-nothing : (l : Found) (slug : String) (x : Line) → or_this l slug x ≡ nothing → l ≡ nothing
or_this-nothing nothing slug x h = refl
or_this-nothing (found r) slug x h = cc
or_this-nothing throws slug x h = cc

no_later_park :
    (slug : String) (xs ys : List Line)
    → last_park slug xs ≡ nothing
    → last_park slug ys ≡ nothing
    → last_park slug (xs ++ ys) ≡ nothing
unfolding last_park
no_later_park slug [] ys g h = h
no_later_park slug (x ∷ xs) ys g h =
    let before = or_this-nothing (last_park slug xs) slug x g in
    ap (λ l. or_this l slug x) (no_later_park slug xs ys before h ∙ sym before) ∙ g

park_last :
    (slug : String) (r : PortfolioRow) (ys : List Line)
    → parks slug r ≡ true
    → last_park slug ys ≡ nothing
    → last_park slug (row r ∷ ys) ≡ found r
unfolding last_park
park_last slug r ys p h =
    ap (λ l. or_this l slug (row r)) h ∙ ap (λ b. if b then found r else nothing) p

intact : (hash : String) → breaks_seal (some hash) hash ≡ none
intact hash = rw (eq_refl hash)

add_line-append : (l : Line) (xs ys : List Line) → add_line l (xs ++ ys) ≡ add_line l xs ++ ys
add_line-append (row r) xs ys = refl
add_line-append null_line xs ys = refl
add_line-append no_row xs ys = refl
add_line-append unreadable xs ys = refl

-- A file that is empty, or whose last line is ended
abbrev pub IsEnded : String → Type 0
IsEnded f = (f ≡ "") ⊎ ((g : String) × (f ≡ glue g "\n"))

module _ (parse : String → Line) where
  rows_of-append :
      (xs ys : List String) → rows_of parse (xs ++ ys) ≡ rows_of parse xs ++ rows_of parse ys
  unfolding rows_of
  rows_of-append [] ys = refl
  rows_of-append (x ∷ xs) ys = elim (Bool-cases (trim x == "")) [
    | inl e ↦ rw e (rows_of-append xs ys)
    | inr e ↦ rw e (
        ap (add_line (parse (trim x))) (rows_of-append xs ys)
        ∙ add_line-append (parse (trim x)) (rows_of parse xs) (rows_of parse ys))
  ]

  read_all_rows-break :
      (f t : String)
      → read_all_rows parse (glue f (glue "\n" t))
        ≡ rows_of parse (lines f) ++ read_all_rows parse t
  unfolding read_all_rows
  read_all_rows-break f t =
      ap (rows_of parse) (lines-break f t) ∙ rows_of-append (lines f) (lines t)

  -- What is read after the end of a line is read on its own.
  read_ended :
      (f : String)
      → IsEnded f
      → (front : List Line) × ((t : String)
          → read_all_rows parse (glue f t) ≡ front ++ read_all_rows parse t)
  read_ended f (inl e) = ([], λ t. ap (read_all_rows parse) (ap (λ s. glue s t) e ∙ nil-append t))
  read_ended f (inr (g, e)) = (
    rows_of parse (lines g),
    λ t.
        ap (read_all_rows parse) (ap (λ s. glue s t) e ∙ append_assoc g "\n" t)
        ∙ read_all_rows-break g t,
  )

  -- A row that is written on a line of its own
  read_row :
      (r : PortfolioRow) (t : String)
      → parse (row_line r) ≡ row r
      → read_all_rows parse (glue (row_line r) (glue "\n" t)) ≡ row r ∷ read_all_rows parse t
  unfolding rows_of
  read_row r t h =
      read_all_rows-break (row_line r) t
      ∙ ap (λ ls. rows_of parse ls ++ read_all_rows parse t)
          (lines-one (row_line r) (stringify-is_line (row_fields r)))
      ∙ rw (stringify-trim (row_fields r), stringify-solid (row_fields r), h) refl

  -- A line that can not be read
  read_torn :
      (raw : String)
      → is_line raw ≡ true
      → parse (trim raw) ≡ unreadable
      → read_all_rows parse (glue raw "\n") ≡ []
  unfolding read_all_rows rows_of lines trim
  read_torn raw cut h =
      read_all_rows-break raw ""
      ∙ ap (λ ls. rows_of parse ls ++ []) (lines-one raw cut)
      ∙ elim (Bool-cases (trim raw == "")) [ inl e ↦ rw e refl | inr e ↦ rw (e, h) refl ]

  park_as-parked :
      (seal : Json → String) (slug now f log : String) (state : Fields) (opts : ParkOptions)
      (entry : PortfolioEntry) (o : Option (List PortfolioEntry))
      → park_as parse seal slug (obj state) opts now f o ≡ parked entry log
      → (log ≡ append_row f (park_row entry state))
        × (entry.sealed_state_hash ≡ some (seal (obj state)))
        × (entry.genome_slug ≡ slug)
  park_as-parked seal slug now f log state opts entry none h = cc
  park_as-parked seal slug now f log state opts entry (some es) h =
      let made =
        parked_entry slug (seal (obj state)) opts now (find (λ e. e.genome_slug == slug) es) in
      let same : made ≡ entry = cc in
      let text : append_row f (park_row made state) ≡ log = cc in
      (
        sym text ∙ ap (λ e. append_row f (park_row e state)) same,
        ap (λ e. e.sealed_state_hash) (sym same),
        ap (λ e. e.genome_slug) (sym same),
      )

  -- When a project is parked on a file whose last line is ended, and JSON.parse reads the row back that was
  -- written, then, whatever was appended to the file since with no later park of the project and no line null
  -- in it, the project is resumed: with the state that was parked, its seal found intact, at the phase and the
  -- standard that it was parked at, with no seal and no time of parking; and the row that says so is appended
  -- to the file.
  pub park_resume :
      (seal : Json → String) (slug : String) (state : Fields) (opts : ParkOptions)
      (now later f log others : String) (entry : PortfolioEntry)
      → IsEnded f
      → park_genome parse seal slug (obj state) opts now f ≡ parked entry log
      → parse (row_line (park_row entry state)) ≡ row (park_row entry state)
      → last_park slug (read_all_rows parse others) ≡ nothing
      → (live : PortfolioEntry) × (resume_genome parse seal slug later (glue log others)
          ≡ resumed live
              (obj state)
              (glue (glue log others) (glue (row_line (live_row live)) "\n")))
        × (live.genome_slug ≡ slug)
        × (live.current_phase ≡ entry.current_phase)
        × (live.current_standard_slug ≡ entry.current_standard_slug)
        × (live.last_touched_utc ≡ later)
        × (live.sealed_state_hash ≡ none)
        × (live.parked_at_utc ≡ none)
  unfolding resume_genome park_genome append_row
  park_resume seal slug state opts now later f log others entry ended did reads no_park =
      let (text, sealed, named) = park_as-parked seal slug now f log state opts entry _ did in
      let r : PortfolioRow = park_row entry state in
      let whole = glue log others in
      let (front, read_on) = read_ended f ended in
      let rows : read_all_rows parse whole ≡ front ++ row r ∷ read_all_rows parse others =
        ap (λ t. read_all_rows parse (glue t others)) text
        ∙ (ap (read_all_rows parse) (
              append_assoc f (glue (row_line r) "\n") others
              ∙ ap (glue f) (append_assoc (row_line r) "\n" others))
            ∙ (read_on (glue (row_line r) (glue "\n" others))
                ∙ ap (λ rs. front ++ rs) (read_row r others reads))) in
      let last : last_park slug (read_all_rows parse whole) ≡ found r =
        ap (last_park slug) rows
        ∙ later_park slug front (row r ∷ read_all_rows parse others) r (
            park_last slug r (read_all_rows parse others) ((eq_iff entry.genome_slug slug).1 named)
              no_park) in
      (
        resumed_entry slug later entry,
        ap (resume_row seal slug later whole) last
            ∙ ap (resume_outcome slug later whole r (seal (obj state)))
                (ap (λ h. breaks_seal h (seal (obj state))) sealed ∙ intact (seal (obj state))),
        refl,
        refl,
        refl,
        refl,
        refl,
        refl,
      )

  -- When a write was cut off in the middle of the last line of the file, and JSON.parse can not read what the
  -- line becomes with a row after it, then a project that is not parked in the lines before is parked with no
  -- complaint, and can not be resumed: it is not found.
  torn_park_lost :
      (seal : Json → String) (slug : String) (state : Fields) (opts : ParkOptions)
      (now later f torn log : String) (entry : PortfolioEntry)
      → is_line torn ≡ true
      → parse (trim (glue torn (row_line (park_row entry state)))) ≡ unreadable
      → last_park slug (read_all_rows parse f) ≡ nothing
      → park_genome parse seal slug (obj state) opts now (glue f (glue "\n" torn))
        ≡ parked entry log
      → resume_genome parse seal slug later log ≡ not_found
  unfolding resume_genome park_genome append_row read_all_rows last_park
  torn_park_lost seal slug state opts now later f torn log entry cut unread no_park did =
      let (text, _, _) = park_as-parked seal slug now _ log state opts entry _ did in
      let line = row_line (park_row entry state) in
      let both = glue torn line in
      let one_line =
        is_line-glue torn line cut (stringify-is_line (row_fields (park_row entry state))) in
      let joined : log ≡ glue f (glue "\n" (glue both "\n")) =
        text
        ∙ (append_assoc f (glue "\n" torn) _
            ∙ ap (glue f)
                (append_assoc "\n" torn _ ∙ ap (glue "\n") (sym (append_assoc torn _ "\n")))) in
      let none_left : last_park slug (read_all_rows parse log) ≡ nothing =
        ap (λ t. last_park slug (read_all_rows parse t)) joined
        ∙ (ap (last_park slug) (read_all_rows-break f (glue both "\n"))
            ∙ no_later_park slug (read_all_rows parse f) (read_all_rows parse (glue both "\n"))
                no_park (ap (last_park slug) (read_torn both one_line unread))) in
      ap (resume_row seal slug later log) none_left
