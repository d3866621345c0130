-- ===== src/Law/Declared.antt =====
-- `lawCheckIsEvaluable` of src/institution_enforcement.ts, against `evaluate`.
use coltrane.Base.{
  head_included, tail_included, String, ◌≡◌, refl, true, List, [], ◌∷◌, all, includes, lookup, keys,
  is_some, arith, eq_iff,
}
use coltrane.Law.Syntax.{SExpr, Parsed, ok, parse_error, out_of_fuel, parse}
use coltrane.Law.Evaluation.{LawCheck, FactRecord, evaluate, verdict_of}
use coltrane.Law.Symbols.{symbols, no_symbols}
use coltrane.Law.Reads.{Agree, AgreeOnAtoms, as_verdict-same}
use coltrane.Law.Admissibility.{closed_by, law_check_is_evaluable}

all-includes :
    (xs ys : List String) (n : String)
    → all (λ x. includes x ys) xs ≡ true
    → includes n xs ≡ true
    → includes n ys ≡ true
unfolding all includes
all-includes [] ys n h i = cc
all-includes (x ∷ xs) ys n h i = ground (arith, all-includes xs ys n, eq_iff x n)

same_supplied :
    (f g : FactRecord) (names : List String)
    → ((n : String) → includes n names ≡ true → lookup n f ≡ lookup n g)
    → all (λ n. is_some (lookup n f)) names ≡ all (λ n. is_some (lookup n g)) names
unfolding all includes
same_supplied f g [] h = refl
same_supplied f g (n ∷ ns) h =
    rw (h n (head_included n ns), same_supplied f g ns (λ m i. h m (tail_included m n ns i)))

module _ {f g : FactRecord} (atoms : AgreeOnAtoms f g) (declared : List String)
    (same : Agree f g declared) where
  verdict_of-same :
      (p : Parsed SExpr) → closed_by declared p ≡ true → verdict_of f p ≡ verdict_of g p
  unfolding symbols
  verdict_of-same (ok ast) h =
      as_verdict-same atoms ast no_symbols
        (record { at = λ n i. same.at n (all-includes (symbols ast).vars declared n h i) })
  verdict_of-same parse_error h = refl
  verdict_of-same out_of_fuel h = refl

-- The verdict of an evaluable law is settled by the inputs that it declares: on two fact records
-- that hold the same at each declared input and at the names `allow` and `deny`, `evaluate` answers
-- the same.
pub evaluate-declared :
    (check : LawCheck) (f g : FactRecord)
    → law_check_is_evaluable check ≡ true
    → Agree f g (keys check.inputs)
    → AgreeOnAtoms f g
    → evaluate check f ≡ evaluate check g
unfolding evaluate law_check_is_evaluable
evaluate-declared check f g h same atoms = rw (
  same_supplied f g (keys check.inputs) same.at,
  verdict_of-same atoms (keys check.inputs) same (parse check.predicate) h,
)
