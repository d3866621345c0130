-- ===== src/Ledger/Written.antt =====
-- `FileLedger` of src/ledger.ts keeps what `MemoryLedger` keeps.
use text.Mathlib.TextLemmas.{append_assoc, nil-append, append-nil}
use coltrane.Base.{
  lines-break, lines-one, lines, ℕ, suc, String, true, ◌≡◌, refl, sym, ap, ◌∙◌, inl, inr, Option,
  none, some, List, [], ◌∷◌, ◌++◌, map, keep, length, All, All-append, glue, trim, is_some,
  includes, Option-cases, none-some,
}
use mathlib.Core.List
use coltrane.Base.Json.{Json, Fields, obj}
use coltrane.Ledger.{
  at, validate_entry, first_error, LedgerQuery, matches, memory_append, memory_ledger, kept,
  append_all,
}
use coltrane.Ledger.File.{
  Contents, read_lines, read_file, line_for, file_append, report, file_ledger,
}
use coltrane.Canonical.Printing.Lines.{stringify-is_line, stringify-trim, stringify-solid}

valid-kind : (row : Fields) → validate_entry row ≡ none → is_some (at "kind" row) ≡ true
unfolding validate_entry first_error includes
valid-kind row h = elim (Option-cases (at "kind" row)) [
  | inl e ↦ none-some (sym (rw e at h))
  | inr (v, e) ↦ rw e refl
]

module _ (parse : String → Option Json) where
  -- JSON.parse reads back what JSON.stringify wrote of an entry.
  abbrev pub IsReadable : Fields → Type 0
  IsReadable e = parse (line_for e) ≡ some (obj e)

  abbrev IsGood : Fields → Type 0
  IsGood e = IsReadable e × (validate_entry e ≡ none)

  read_lines-written :
      (i : ℕ) (rows : List Fields)
      → All IsGood rows
      → read_lines parse i (map line_for rows ++ "" ∷ []) ≡ record { rows = rows; corrupt = [] }
  unfolding read_lines trim
  read_lines-written i [] h = refl
  read_lines-written i (e ∷ rows) ((readable, valid), more) =
      rw (stringify-trim e, stringify-solid e, readable, valid-kind e valid)
        (ap (λ (c : Contents). record c { rows = e ∷ c.rows })
          (read_lines-written (suc i) rows more))

  -- A text that holds some rows: a line for each, the last one ended
  pub record IsHeld (text : String) (rows : List Fields) : Type 0 where
    pub ended : (t : String) → lines (glue text t) ≡ map line_for rows ++ lines t
    pub good : All IsGood rows

  read_file-IsHeld :
      (text : String) (rows : List Fields)
      → IsHeld text rows
      → read_file parse text ≡ record { rows = rows; corrupt = [] }
  unfolding read_file lines
  read_file-IsHeld text rows held =
      ap (read_lines parse 1) (ap lines (sym (append-nil text)) ∙ held.ended "")
      ∙ read_lines-written 1 rows held.good

  append-IsHeld :
      (e : Fields) (text : String) (rows : List Fields)
      → IsGood e
      → IsHeld text rows
      → IsHeld (glue text (glue (line_for e) "\n")) (rows ++ e ∷ [])
  append-IsHeld e text rows g held = record {
    ended = λ t.
        ap lines (
          append_assoc text (glue (line_for e) "\n") t
          ∙ ap (glue text) (append_assoc (line_for e) "\n" t))
        ∙ (held.ended (glue (line_for e) (glue "\n" t))
            ∙ (ap (λ ls. map line_for rows ++ ls)
                  (lines-break (line_for e) t
                    ∙ ap (λ ls. ls ++ lines t) (lines-one (line_for e) (stringify-is_line e)))
                ∙ (sym (List.append_assoc (map line_for rows) (line_for e ∷ []) (lines t))
                    ∙ ap (λ ls. ls ++ lines t) (sym (List.map-append line_for rows (e ∷ []))))));
    good = All-append IsGood rows (e ∷ []) held.good (g, tt);
  }

  file_append-IsHeld :
      (shown : Option Json → String) (e : Fields) (text : String) (rows : List Fields)
      → IsReadable e
      → IsHeld text rows
      → IsHeld (kept text (file_append e text)) (kept rows (memory_append shown e rows))
  unfolding file_append memory_append
  file_append-IsHeld shown e text rows r held = elim (Option-cases (validate_entry e)) [
    | inl valid ↦ rw valid (append-IsHeld e text rows (r, valid) held)
    | inr (why, bad) ↦ rw bad held
  ]

  append_all-IsHeld :
      (shown : Option Json → String) (path : String) (es : List Fields) (text : String)
      (rows : List Fields)
      → All IsReadable es
      → IsHeld text rows
      → IsHeld
          (append_all (file_ledger parse shown path) es text)
          (append_all (memory_ledger shown) es rows)
  unfolding append_all file_ledger memory_ledger
  append_all-IsHeld shown path [] text rows r held = held
  append_all-IsHeld shown path (e ∷ es) text rows r held =
      append_all-IsHeld shown path es _ _ r.1 (file_append-IsHeld shown e text rows r.0 held)

  -- When JSON.parse reads back what JSON.stringify writes of each of some entries, and these are appended, some
  -- of them refused, to an empty file and to a ledger in memory, then the file answers every query as the
  -- memory does, with the same entries in the same order, counts them alike, and reports the same but for its path:
  -- it is whole.
  pub file_ledger_refines :
      (shown : Option Json → String) (path : String) (es : List Fields) (q : LedgerQuery)
      → All IsReadable es
      → let file = file_ledger parse shown path in
        let memory = memory_ledger shown in
        let text = append_all file es "" in
        let rows = append_all memory es [] in
        (file.query q text ≡ memory.query q rows)
        × (file.count q text ≡ memory.count q rows)
        × (file.integrity text ≡ record (memory.integrity rows) { path = path })
  unfolding file_ledger memory_ledger
  file_ledger_refines shown path es q readable =
      let rows = append_all (memory_ledger shown) es [] in
      let held =
        append_all-IsHeld shown path es "" [] readable
          (record { ended = λ t. ap lines (nil-append t); good = tt }) in
      let same = read_file-IsHeld _ rows held in
      (
        ap (λ c. keep (matches shown q) c.rows) same,
        ap (λ c. length (keep (matches shown q) c.rows)) same,
        ap (report path) same,
      )
