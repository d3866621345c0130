-- ===== src/Law/Evaluation.antt =====
-- src/institution_enforcement.ts, `resolveOperand`, `asBool`, `asVerdict` and `evaluate`. An object is
-- its identity, which is what `===` compares, and its fields; a number is a natural.
use coltrane.Base.{
  ℕ, String, Bool, true, false, not, Option, none, some, eqb, if◌then◌else◌, ◌==◌, Dict, lookup,
  keys, is_some, all, or_else,
}
use coltrane.Base.Json.{Json, bool}
use coltrane.Law.Syntax.{
  SExpr, Items, list, sym, str, nil, cons, Parsed, ok, parse_error, out_of_fuel, parse,
}

pub data Value : Type 0 where
  undefined null : Value
  boolean : Bool → Value
  number : ℕ → Value
  text : String → Value
  object : ℕ → Dict Json → Value

abbrev pub FactRecord : Type 0
FactRecord = Dict Value

-- `===`
abbrev strict_eq : Value → Value → Bool
strict_eq undefined undefined = true
strict_eq null null = true
strict_eq (boolean true) (boolean b) = b
strict_eq (boolean false) (boolean b) = not b
strict_eq (number m) (number n) = eqb m n
strict_eq (text s) (text t) = s == t
strict_eq (object i fs) (object j gs) = eqb i j
strict_eq _ _ = false

pub data Tri : Type 0 where
  yes_ no_ unknown : Tri

pub data Verdict : Type 0 where
  permit deny not_applicable undecided dead_name : Verdict

abbrev of_bool : Bool → Tri
of_bool true = yes_
of_bool false = no_

-- `none` is `ok: false`.
unfoldable pub resolve_operand : SExpr → FactRecord → Option Value
resolve_operand (str s) facts = some (text s)
resolve_operand (sym name) facts = some (or_else (lookup name facts) undefined)
resolve_operand (list items) facts = none

abbrev is_flag : Option Json → Bool
is_flag (some (bool true)) = true
is_flag _ = false

-- `!!v && typeof v === "object" && v[flag] === true`
abbrev flagged : String → Option Value → Bool
flagged flag (some (object i fs)) = is_flag (lookup flag fs)
flagged flag _ = false

abbrev equal_operands : Option Value → Option Value → Tri
equal_operands (some l) (some r) = of_bool (strict_eq l r)
equal_operands _ _ = unknown

abbrev pub negate : Tri → Tri
negate yes_ = no_
negate no_ = yes_
negate unknown = unknown

-- One round of the loops of "and" and "or": the argument's value, and what the rest of the loop
-- answers from each value of `seenUndecided`.
abbrev and_round : Tri → Bool → (Bool → Tri) → Tri
and_round no_ seen rest = no_
and_round unknown seen rest = rest true
and_round yes_ seen rest = rest seen

abbrev or_round : Tri → Bool → (Bool → Tri) → Tri
or_round yes_ seen rest = yes_
or_round unknown seen rest = rest true
or_round no_ seen rest = rest seen

unfoldable mutual
  unfolding resolve_operand

  pub as_bool : FactRecord → SExpr → Tri
  as_bool facts (list (cons (sym head) args)) =
      let conj = and_loop facts args false in
      let disj = or_loop facts args false in
      let neg = not_args facts args in
      if head == "and"
      then conj
      else if head == "or"
      then disj
      else if head == "not"
      then neg
      else if head == "="
      then eq_args facts args
      else if head == "is-agent"
      then flag_args "is_agent" facts args
      else if head == "human-governor"
      then flag_args "human_governor" facts args
      else unknown
  as_bool facts _ = unknown

  pub and_loop : FactRecord → Items → Bool → Tri
  and_loop facts nil seen = if seen then unknown else yes_
  and_loop facts (cons a args) seen = and_round (as_bool facts a) seen (and_loop facts args)

  pub or_loop : FactRecord → Items → Bool → Tri
  or_loop facts nil seen = if seen then unknown else no_
  or_loop facts (cons a args) seen = or_round (as_bool facts a) seen (or_loop facts args)

  pub not_args : FactRecord → Items → Tri
  not_args facts (cons a nil) = negate (as_bool facts a)
  not_args facts _ = unknown

  pub eq_args : FactRecord → Items → Tri
  eq_args facts (cons l (cons r nil)) =
      equal_operands (resolve_operand l facts) (resolve_operand r facts)
  eq_args facts _ = unknown

  pub flag_args : String → FactRecord → Items → Tri
  flag_args flag facts (cons a nil) = of_bool (flagged flag (resolve_operand a facts))
  flag_args flag facts _ = unknown

abbrev require_verdict : Tri → Verdict
require_verdict unknown = undecided
require_verdict yes_ = permit
require_verdict no_ = deny

abbrev implies_verdict : Tri → Verdict → Verdict
implies_verdict unknown then_verdict = undecided
implies_verdict no_ then_verdict = not_applicable
implies_verdict yes_ then_verdict = then_verdict

unfoldable mutual
  pub as_verdict : FactRecord → SExpr → Verdict
  as_verdict facts (sym name) =
      if name == "allow" then permit else if name == "deny" then deny else undecided
  as_verdict facts (str s) = undecided
  as_verdict facts (list nil) = undecided
  as_verdict facts (list (cons (sym head) args)) =
      let implied = implies_args facts args in
      if head == "=>"
      then implied
      else if head == "require"
      then require_args facts args
      else if head == "allow"
      then permit
      else if head == "deny"
      then deny
      else undecided
  as_verdict facts (list (cons (list items) args)) = undecided
  as_verdict facts (list (cons (str s) args)) = undecided

  pub implies_args : FactRecord → Items → Verdict
  implies_args facts (cons p (cons q nil)) = implies_verdict (as_bool facts p) (as_verdict facts q)
  implies_args facts _ = undecided

  pub require_args : FactRecord → Items → Verdict
  require_args facts (cons r nil) = require_verdict (as_bool facts r)
  require_args facts _ = undecided

pub record LawCheck : Type 0 where
  pub predicate : String
  pub inputs : Dict String

abbrev pub verdict_of : FactRecord → Parsed SExpr → Verdict
verdict_of facts (ok ast) = as_verdict facts ast
verdict_of facts parse_error = undecided
verdict_of facts out_of_fuel = undecided

-- `evaluate`: every declared input must name a fact.
unfoldable pub evaluate : LawCheck → FactRecord → Verdict
evaluate check facts =
    if all (λ name. is_some (lookup name facts)) (keys check.inputs)
    then verdict_of facts (parse check.predicate)
    else dead_name
