-- ===== src/Law/Admitted.antt =====
-- What `checkLaw` of src/institution_enforcement.ts promises of a law that it lets through.
use coltrane.Base.{
  ℕ, String, ◌≡◌, refl, sym, ◌∙◌, true, false, Option, some, List, [], ◌++◌, ◌↔◌, map, missing,
  missing-none, none-missing, map-nil, append-nil, cons-nil, includes, Bool-cases, inl, inr,
  is_blank,
}
use coltrane.Base.Json.{Json, str}
use coltrane.Law.Syntax.{SExpr, Parsed, ok, parse_error, out_of_fuel, parse}
use coltrane.Law.Symbols.{Symbols, symbols}
use coltrane.Law.Admissibility.{
  undeclared, unreferenced, unimplemented, member, member_of, own_keys, check_law, known_operators,
  predicate_reasons, parsed_reasons, breach_reasons, symbol_reasons,
}

-- A law that `checkLaw` should admit: its predicate parses, its variables are the declared inputs,
-- every operator is known, and a consequence on breach is stated.
pub record AdmissibleLaw (show : ℕ → String) (v : Json) : Type 0 where
  pub predicate : String
  pub ast : SExpr
  pub breach : String
  pub has_predicate : member_of "predicate" (member "check" v) ≡ some (str predicate)
  pub parses : parse predicate ≡ ok ast
  pub closed :
      (n : String)
      → includes n (symbols ast).vars
        ≡ includes n (own_keys show (member_of "inputs" (member "check" v)))
  pub known : (n : String) → includes n (symbols ast).ops ≡ true → includes n known_operators ≡ true
  pub has_breach : member "or_else" v ≡ some (str breach)
  pub stated : is_blank breach ≡ false

same_set-IsClosed :
    (s : Symbols) (declared : List String)
    → missing s.vars declared ≡ []
    → missing declared s.vars ≡ []
    → (n : String) → includes n s.vars ≡ includes n declared
same_set-IsClosed s declared h k n =
    let there = missing-none s.vars declared n h in
    let back = missing-none declared s.vars n k in
    elim (Bool-cases (includes n s.vars)) [
      | inl a ↦ a ∙ sym (there a)
      | inr a ↦ elim (Bool-cases (includes n declared)) [
        | inl b ↦ back b ∙ sym b
        | inr b ↦ a ∙ sym b
      ]
    ]

Parsed-cases :
    (p : Parsed SExpr) (declared : List String) (breach : Option Json)
    → parsed_reasons p declared breach ≡ []
    → (ast : SExpr) × (p ≡ ok ast) × (parsed_reasons (ok ast) declared breach ≡ [])
Parsed-cases (ok ast) declared breach h = (ast, refl, h)
Parsed-cases parse_error declared breach h = cons-nil h
Parsed-cases out_of_fuel declared breach h = cons-nil h

record Accepted (p : Option Json) (declared : List String) (breach : Option Json) : Type 0 where
  predicate : String
  ast : SExpr
  has_predicate : p ≡ some (str predicate)
  parses : parse predicate ≡ ok ast
  no_reason : symbol_reasons (symbols ast) declared ++ breach_reasons breach ≡ []

predicate_reasons-Accepted :
    (p : Option Json) (declared : List String) (breach : Option Json)
    → predicate_reasons p declared breach ≡ []
    → Accepted p declared breach
predicate_reasons-Accepted (some (str t)) declared breach h =
    let (ast, e, r) = Parsed-cases (parse t) declared breach h in
    record { predicate = t; ast = ast; has_predicate = refl; parses = e; no_reason = r }
predicate_reasons-Accepted _ declared breach h = cons-nil h

breach_reasons-stated :
    (o : Option Json)
    → breach_reasons o ≡ []
    → (breach : String) × (o ≡ some (str breach)) × (is_blank breach ≡ false)
breach_reasons-stated (some (str s)) h = elim (Bool-cases (is_blank s)) [
  | inl b ↦ cons-nil (rw b at h)
  | inr b ↦ (s, refl, b)
]
breach_reasons-stated _ h = cons-nil h

symbol_reasons-nil :
    (s : Symbols) (declared : List String)
    → symbol_reasons s declared ≡ []
    → (missing s.vars declared ≡ [])
      × (missing declared s.vars ≡ [])
      × (missing s.ops known_operators ≡ [])
symbol_reasons-nil s declared h =
    let vars = map undeclared (missing s.vars declared) in
    let unused = map unreferenced (missing declared s.vars) in
    let ops = map unimplemented (missing s.ops known_operators) in
    let (first, rest) = append-nil (vars ++ unused) ops h in
    let (there, back) = append-nil vars unused first in
    (map-nil undeclared _ there, map-nil unreferenced _ back, map-nil unimplemented _ rest)

predicate_reasons-nil :
    (show : ℕ → String) (v : Json)
    → predicate_reasons
        (member_of "predicate" (member "check" v))
        (own_keys show (member_of "inputs" (member "check" v)))
        (member "or_else" v)
      ≡ []
    → AdmissibleLaw show v
predicate_reasons-nil show v h =
    let declared = own_keys show (member_of "inputs" (member "check" v)) in
    let a =
      predicate_reasons-Accepted (member_of "predicate" (member "check" v)) declared
        (member "or_else" v) h in
    let (reasons, breach) =
      append-nil (symbol_reasons (symbols a.ast) declared) (breach_reasons (member "or_else" v))
        a.no_reason in
    let (there, back, ops) = symbol_reasons-nil (symbols a.ast) declared reasons in
    let (said, has, stated) = breach_reasons-stated (member "or_else" v) breach in
    record {
      predicate = a.predicate;
      ast = a.ast;
      breach = said;
      has_predicate = a.has_predicate;
      parses = a.parses;
      closed = same_set-IsClosed (symbols a.ast) declared there back;
      known = λ n. missing-none (symbols a.ast).ops known_operators n ops;
      has_breach = has;
      stated = stated;
    }

-- `checkLaw` finds nothing against a law exactly if the law is admissible in the sense written out
-- in `AdmissibleLaw`: its predicate is a text that parses, the variables of the predicate are the
-- declared inputs, in both directions, each operator is a known one, and `or_else` is a text that is
-- not blank.
pub check_law_exact :
    (show : ℕ → String) (v : Json) → (check_law show v ≡ []) ↔ AdmissibleLaw show v
unfolding check_law
check_law_exact show v = (
  λ h. predicate_reasons-nil show v (map-nil _ _ h),
  λ a. rw (
    a.has_predicate,
    a.parses,
    a.has_breach,
    a.stated,
    none-missing (symbols a.ast).vars (own_keys show (member_of "inputs" (member "check" v)))
        (λ n i. sym (a.closed n) ∙ i),
    none-missing (own_keys show (member_of "inputs" (member "check" v))) (symbols a.ast).vars
        (λ n i. a.closed n ∙ i),
    none-missing (symbols a.ast).ops known_operators a.known,
  ),
)
