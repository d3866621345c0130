-- ===== src/Law/Tests.antt =====
-- A law about rooms, and the theorems on it.
use coltrane.Base.{
  ℕ, String, ◌≡◌, ◌≢◌, refl, true, Option, some, [], ◌∷◌, lookup, keys, includes, All, ◌↔◌, arith,
  all,
}
use coltrane.Base.Json.{Json, str, obj, arr, field, end, nil, cons, Items}
use coltrane.Law.Syntax
use coltrane.Law.Syntax.{
  SExpr, list, sym, Token, open_paren, close_paren, parse, out_of_fuel, ok, read_all, tokenize,
  tokens_from, read_symbol, read_text, read_expr,
}
use coltrane.Law.Symbols.{symbols, collect}
use coltrane.Law.Reader.{print, read_all_exact}
use coltrane.Law.Termination.{parse-ends}
use coltrane.Law.Evaluation.{text, FactRecord, LawCheck, evaluate, as_bool}
use coltrane.Law.Kleene.{conjunction, disjunction, as_bool-kleene}
use coltrane.Law.Reads.{Agree, AgreeOnAtoms}
use coltrane.Law.Admissibility.{
  member, array_or_empty, check_institution_admissibility, law_check_is_evaluable,
}
use coltrane.Law.Declared.{evaluate-declared}
use coltrane.Law.Admitted.{AdmissibleLaw}
use coltrane.Law.Admission.{MarkedChair, listed_or_none, check_institution_admissibility_exact}

abbrev show_position : ℕ → String
show_position n = "0"

abbrev not_room : SExpr
not_room = list (Syntax.Items.cons (sym "not") (Syntax.Items.cons (sym "room") Syntax.Items.nil))

read_all_exact_example :
    (read_all (print not_room []) ≡ ok not_room) ↔ (print not_room [] ≡ print not_room [])
read_all_exact_example = read_all_exact (print not_room []) not_room

parse-ends_example : parse "(require (not room" ≢ out_of_fuel
parse-ends_example = parse-ends "(require (not room"

abbrev room_is_a : SExpr
room_is_a = list (
    Syntax.Items.cons (sym "=")
      (Syntax.Items.cons (sym "room") (Syntax.Items.cons (SExpr.str "a") Syntax.Items.nil)))

abbrev in_room : FactRecord
in_room = ("room", text "a") ∷ []

as_bool-kleene_example :
    (as_bool in_room
        (list (Syntax.Items.cons (sym "and") (Syntax.Items.cons room_is_a Syntax.Items.nil)))
      ≡ conjunction in_room (Syntax.Items.cons room_is_a Syntax.Items.nil))
    × (as_bool in_room
          (list (Syntax.Items.cons (sym "or") (Syntax.Items.cons room_is_a Syntax.Items.nil)))
        ≡ disjunction in_room (Syntax.Items.cons room_is_a Syntax.Items.nil))
as_bool-kleene_example = as_bool-kleene in_room (Syntax.Items.cons room_is_a Syntax.Items.nil)

abbrev room_law : LawCheck
room_law = record {
  predicate = "(require (= room \"a\"))";
  inputs = ("room", "where it sounds") ∷ [];
}

abbrev busy_room : FactRecord
busy_room = ("room", text "a") ∷ ("guests", text "many") ∷ []

same_room : Agree in_room busy_room (keys room_law.inputs)
unfolding lookup keys includes
same_room = record { at = λ n h. ground (arith, h) }

same_atoms : AgreeOnAtoms in_room busy_room
unfolding lookup
same_atoms = record { allow = refl; deny = refl }

room_law_closes : law_check_is_evaluable room_law ≡ true
unfolding law_check_is_evaluable parse tokenize tokens_from read_symbol read_text read_all read_expr
    symbols collect all includes keys
room_law_closes = refl

evaluate-declared_example : evaluate room_law in_room ≡ evaluate room_law busy_room
evaluate-declared_example =
    evaluate-declared room_law in_room busy_room room_law_closes same_room same_atoms

abbrev room_document : Json
room_document = obj (
    field "aim" (str "keep the room") (
      field "check"
        (obj (
          field "predicate" (str "(require (= room \"a\"))")
            (field "inputs" (obj (field "room" (str "where it sounds") end)) end)))
        (field "or_else" (str "the gig stops") end)))

abbrev room_institution : Json
room_institution = obj (field "laws" (arr (cons room_document nil)) end)

abbrev one_chair : Option Items
one_chair = some (
    cons
      (obj (
        field "role" (str "drums")
          (field "obligations" (arr (cons (obj (field "tier" (str "declared") end)) nil)) end)))
      nil)

check_institution_admissibility_exact_example :
    ((check_institution_admissibility show_position room_institution one_chair).admitted ≡ true) ↔ (
      All (AdmissibleLaw show_position) (array_or_empty (member "laws" room_institution))
      × All MarkedChair (listed_or_none one_chair))
check_institution_admissibility_exact_example =
    check_institution_admissibility_exact show_position room_institution one_chair
