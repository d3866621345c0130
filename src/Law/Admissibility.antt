-- ===== src/Law/Admissibility.antt =====
-- src/institution_enforcement.ts, `checkLaw`, `checkChair`, `checkInstitutionAdmissibility` and
-- `lawCheckIsEvaluable`. A document is the JSON value that was loaded; a reason keeps the name it
-- quotes in place of the sentence around it. Where `check.inputs` is an array its keys are its
-- positions, which are written out here from a parameter, `show`, JavaScript's printing of a number.
use coltrane.Base.{
  ℕ, suc, String, Bool, true, false, ◌||◌, Option, none, some, List, [], ◌∷◌, ◌++◌, if◌then◌else◌,
  ◌==◌, glue, is_blank, missing, map, all, includes, lookup, keys,
}
use coltrane.Base.Json.{Json, str, arr, obj, Items, nil, cons, entries}
use coltrane.Law.Syntax.{SExpr, Parsed, ok, parse_error, out_of_fuel, parse}
use coltrane.Law.Evaluation.{LawCheck}
use coltrane.Law.Symbols.{Symbols, symbols}

pub data OffenderKind : Type 0 where
  law obligation : OffenderKind

pub data Reason : Type 0 where
  no_predicate does_not_parse : Reason
  undeclared unreferenced unimplemented : String → Reason
  empty_or_else unmarked_obligation : Reason

pub record AdmissibilityOffender : Type 0 where
  pub kind : OffenderKind
  pub locator : String
  pub reason : Reason

pub record AdmissibilityResult : Type 0 where
  pub admitted : Bool
  pub offenders : List AdmissibilityOffender

-- `asRecord(v)[k]`: only an object has a field of such a name.
abbrev pub member : String → Json → Option Json
member k (obj fs) = lookup k (entries fs)
member k _ = none

abbrev pub member_of : String → Option Json → Option Json
member_of k (some v) = member k v
member_of k none = none

abbrev pub listed : Items → List Json
listed nil = []
listed (cons v vs) = v ∷ listed vs

-- `Array.isArray(v) ? v : []`
abbrev pub array_or_empty : Option Json → List Json
array_or_empty (some (arr vs)) = listed vs
array_or_empty _ = []

-- `Object.keys(asRecord(v))`
abbrev pub positions : (ℕ → String) → ℕ → Items → List String
positions show i nil = []
positions show i (cons v vs) = show i ∷ positions show (suc i) vs

abbrev pub own_keys : (ℕ → String) → Option Json → List String
own_keys show (some (obj fs)) = keys (entries fs)
own_keys show (some (arr vs)) = positions show 0 vs
own_keys show _ = []

abbrev pub known_operators : List String
known_operators =
    "=>" ∷ "and" ∷ "or" ∷ "not" ∷ "=" ∷ "is-agent" ∷ "human-governor" ∷ "require" ∷ "allow" ∷ "deny"
    ∷ "subseteq" ∷ "forall" ∷ "resolvable" ∷ "nonempty" ∷ "declared_before" ∷ "has"
    ∷ "backed_by_contract" ∷ []

abbrev pub symbol_reasons : Symbols → List String → List Reason
symbol_reasons s declared =
    map undeclared (missing s.vars declared)
    ++ map unreferenced (missing declared s.vars)
    ++ map unimplemented (missing s.ops known_operators)

-- The check of `or_else`, which ends `checkLaw`.
abbrev pub breach_reasons : Option Json → List Reason
breach_reasons (some (str s)) = if is_blank s then empty_or_else ∷ [] else []
breach_reasons _ = empty_or_else ∷ []

abbrev pub parsed_reasons : Parsed SExpr → List String → Option Json → List Reason
parsed_reasons (ok ast) declared breach =
    symbol_reasons (symbols ast) declared ++ breach_reasons breach
parsed_reasons parse_error declared breach = does_not_parse ∷ []
parsed_reasons out_of_fuel declared breach = does_not_parse ∷ []

abbrev pub predicate_reasons : Option Json → List String → Option Json → List Reason
predicate_reasons (some (str predicate)) declared breach =
    parsed_reasons (parse predicate) declared breach
predicate_reasons _ declared breach = no_predicate ∷ []

-- `typeof v === "string" && v.length > 0 ? v : "(law)"`
abbrev law_ref : Option Json → String
law_ref (some (str s)) = if s == "" then "(law)" else s
law_ref _ = "(law)"

unfoldable pub check_law : (ℕ → String) → Json → List AdmissibilityOffender
check_law show v =
    let check = member "check" v in
    map (λ reason. record { kind = law; locator = law_ref (member "aim" v); reason = reason })
      (predicate_reasons (member_of "predicate" check) (own_keys show (member_of "inputs" check))
        (member "or_else" v))

abbrev pub text_or_default : String → Option Json → String
text_or_default d (some (str s)) = s
text_or_default d _ = d

abbrev pub is_marked : Option Json → Bool
is_marked (some (str tier)) = tier == "declared" || tier == "enforced"
is_marked _ = false

unfoldable pub check_obligations : String → List Json → List AdmissibilityOffender
check_obligations role [] = []
check_obligations role (raw ∷ more) =
    let rest = check_obligations role more in
    if is_marked (member "tier" raw)
    then rest
    else record {
      kind = obligation;
      locator = glue role (glue " :: " (text_or_default "(obligation)" (member "aim" raw)));
      reason = unmarked_obligation;
    }
      ∷ rest

abbrev pub check_chair : Json → List AdmissibilityOffender
check_chair chair =
    check_obligations (text_or_default "(chair)" (member "role" chair))
      (array_or_empty (member "obligations" chair))

unfoldable pub gather : (Json → List AdmissibilityOffender) → List Json → List AdmissibilityOffender
gather check [] = []
gather check (v ∷ vs) = check v ++ gather check vs

abbrev pub is_empty {ℓ} : {A : Type ℓ} → List A → Bool
is_empty [] = true
is_empty (x ∷ xs) = false

abbrev pub admissibility : List AdmissibilityOffender → AdmissibilityResult
admissibility offenders = record { admitted = is_empty offenders; offenders = offenders }

-- The institution section, and the chairs where there are any.
unfoldable pub check_institution_admissibility :
    (ℕ → String) → Json → Option Items → AdmissibilityResult
unfolding gather check_law
check_institution_admissibility show institution (some chairs) = admissibility (
    gather (check_law show) (array_or_empty (member "laws" institution))
    ++ gather check_chair (listed chairs))
check_institution_admissibility show institution none =
    admissibility (gather (check_law show) (array_or_empty (member "laws" institution)))

abbrev pub closed_by : List String → Parsed SExpr → Bool
closed_by declared (ok ast) = all (λ v. includes v declared) (symbols ast).vars
closed_by declared parse_error = false
closed_by declared out_of_fuel = false

unfoldable pub law_check_is_evaluable : LawCheck → Bool
law_check_is_evaluable check = closed_by (keys check.inputs) (parse check.predicate)
