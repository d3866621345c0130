-- ===== src/Ledger/Damage.antt =====
-- What an append to a torn file of src/ledger.ts makes of what is read from it.
use text.Mathlib.TextLemmas.{append_assoc}
use coltrane.Base.{
  lines-break, lines-one, is_line, is_line-glue, lines, ℕ, suc, String, true, ◌≡◌, refl, sym, ap,
  ◌∙◌, inl, inr, Option, none, some, List, [], ◌∷◌, ◌++◌, ◌==◌, glue, trim, if◌then◌else◌,
  Bool-cases,
}
use mathlib.Core.List
use coltrane.Base.Json.{Json, Fields}
use coltrane.Ledger.{Validity, validate_entry}
use coltrane.Canonical.Printing.Lines.{stringify-is_line}
use coltrane.Ledger.File.{
  add_row, row_of, Contents, read_lines, read_file, line_for, file_append, unless_invalid,
}

unless_invalid-inr :
    (v : Validity) {text after : String}
    → unless_invalid v text ≡ inr after
    → (v ≡ none) × (text ≡ after)
unless_invalid-inr none h = (refl, cc)
unless_invalid-inr (some why) h = cc

abbrev in_list : Option Fields → List Fields
in_list none = []
in_list (some row) = row ∷ []

add_row-rows :
    (i : ℕ) (line : String) (o : Option Fields) (rest : Contents)
    → (add_row i line o rest).rows ≡ in_list o ++ rest.rows
add_row-rows i line none rest = refl
add_row-rows i line (some row) rest = refl

module _ (parse : String → Option Json) where
  -- The row of a line, if it has one
  abbrev line_rows : String → List Fields
  line_rows raw = if trim raw == "" then [] else in_list (row_of (parse (trim raw)))

  -- The rows of some lines, one line after the other
  unfoldable rows_of : List String → List Fields
  rows_of [] = []
  rows_of (raw ∷ more) = line_rows raw ++ rows_of more

  read_lines-rows : (i : ℕ) (ls : List String) → (read_lines parse i ls).rows ≡ rows_of ls
  unfolding read_lines rows_of
  read_lines-rows i [] = refl
  read_lines-rows i (raw ∷ more) = elim (Bool-cases (trim raw == "")) [
    | inl e ↦ rw e (read_lines-rows (suc i) more)
    | inr e ↦ rw e (
        add_row-rows i _ (row_of (parse (trim raw))) (read_lines parse (suc i) more)
        ∙ ap (λ rows. in_list (row_of (parse (trim raw))) ++ rows) (read_lines-rows (suc i) more))
  ]

  rows_of-append : (xs ys : List String) → rows_of (xs ++ ys) ≡ rows_of xs ++ rows_of ys
  unfolding rows_of
  rows_of-append [] ys = refl
  rows_of-append (x ∷ xs) ys =
      ap (λ rows. line_rows x ++ rows) (rows_of-append xs ys)
      ∙ sym (List.append_assoc (line_rows x) (rows_of xs) (rows_of ys))

  -- What is read from a file after a line break
  read_file-break :
      (f t : String)
      → (read_file parse (glue f (glue "\n" t))).rows ≡ rows_of (lines f) ++ rows_of (lines t)
  unfolding read_file
  read_file-break f t =
      read_lines-rows 1 _ ∙ (ap rows_of (lines-break f t) ∙ rows_of-append (lines f) (lines t))

  line_end :
      (line : String) → lines line ≡ line ∷ [] → rows_of (lines (glue line "\n")) ≡ line_rows line
  unfolding rows_of lines trim
  line_end line h =
      ap rows_of (lines-break line "" ∙ ap (λ ls. ls ++ "" ∷ []) h)
      ∙ List.append-nil (line_rows line)

  unread_line : (line : String) → parse (trim line) ≡ none → line_rows line ≡ []
  unread_line line h = elim (Bool-cases (trim line == "")) [
    | inl e ↦ rw e refl
    | inr e ↦ rw (e, h) refl
  ]

  torn_rows :
      (torn : String)
      → lines torn ≡ torn ∷ []
      → parse (trim torn) ≡ none
      → rows_of (lines torn) ≡ []
  unfolding rows_of
  torn_rows torn cut h = ap rows_of cut ∙ (List.append-nil (line_rows torn) ∙ unread_line torn h)

  -- When a write was cut off in the middle of a line, the next entry is written into the same line: an append
  -- that succeeds leaves what is read from the file as it was, if JSON.parse can read neither what there is of
  -- the line nor the line with the entry after it.
  pub torn_append_lost :
      (e : Fields) (f torn after : String)
      → is_line torn ≡ true
      → parse (trim torn) ≡ none
      → parse (trim (glue torn (line_for e))) ≡ none
      → file_append e (glue f (glue "\n" torn)) ≡ inr after
      → (read_file parse after).rows ≡ (read_file parse (glue f (glue "\n" torn))).rows
  unfolding file_append
  torn_append_lost e f torn after cut unread unread_both h =
      let (valid, same) = unless_invalid-inr (validate_entry e) h in
      let both = glue torn (line_for e) in
      let one_line = lines-one both (is_line-glue torn (line_for e) cut (stringify-is_line e)) in
      let joined : after ≡ glue f (glue "\n" (glue both "\n")) =
        sym same
        ∙ (append_assoc f (glue "\n" torn) (glue (line_for e) "\n")
            ∙ ap (glue f) (
                append_assoc "\n" torn (glue (line_for e) "\n")
                ∙ ap (glue "\n") (sym (append_assoc torn (line_for e) "\n")))) in
      ap (λ text. (read_file parse text).rows) joined
      ∙ (read_file-break f (glue both "\n")
          ∙ ap (λ rows. rows_of (lines f) ++ rows)
              (line_end both one_line
                ∙ unread_line both unread_both
                ∙ sym (torn_rows torn (lines-one torn cut) unread))
          ∙ sym (read_file-break f torn))
