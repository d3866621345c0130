-- ===== src/GigConformance.antt =====
-- src/gig_conformance.ts: whether a run fits its standard, classified at its close, with
-- `outputSatisfiesType` of src/runtime.ts. A standard is its chairs in the order of its phases. The
-- maps that the code builds by role and by hash are read here by searching the lists.
mod Declared
mod Origins
mod Verdicts
mod Tests
use coltrane.Base.{
  String, Bool, true, false, not, ◌&&◌, ◌||◌, Option, none, some, List, [], ◌∷◌, ◌++◌, ◌==◌, any,
  keep, find, includes, Dict, lookup, put, if◌then◌else◌,
}

pub record Chair : Type 0 where
  pub role : String
  pub output_contract : List String
  pub optional_outputs : List String
  pub depends_on : List String

pub record OutputRecord : Type 0 where
  pub id : String
  pub core_type : String
  pub domain_type : String
  pub gig_id : String
  pub from_role : Option String
  pub content_sha : String
  pub input_shas : List String
  pub is_reused : Bool

pub data SkipReason : Type 0 where
  resume reuse : SkipReason

pub record SkippedChair : Type 0 where
  pub role : String
  pub reason : SkipReason
  pub output_types : List String

pub record FitViolation : Type 0 where
  pub chair_slug : String
  pub declared_type : String

pub record FitSurplus : Type 0 where
  pub chair_slug : String
  pub sealed_type : String

pub record TimingViolation : Type 0 where
  pub record_id : String
  pub sealing_chair_slug : String
  pub unauthorized_sha : String
  pub unauthorized_source_chair_slug : String

pub data GigConformanceResult : Type 0 where
  clean : GigConformanceResult
  incomplete failed : String → GigConformanceResult
  violated : List FitViolation → List FitSurplus → List TimingViolation → GigConformanceResult

abbrev pub core_types : List String
core_types = "Signal" ∷ "Interpretation" ∷ "Plan" ∷ "Judgment" ∷ "Artifact" ∷ "Verdict" ∷ []

unfoldable pub output_satisfies_type : OutputRecord → String → Bool
output_satisfies_type r declared =
    r.domain_type == declared || (includes declared core_types && r.core_type == declared)

-- A loop that pushes what each round finds
unfoldable pub each {ℓ κ} : {A : Type ℓ} {B : Type κ} → (A → List B) → List A → List B
each f [] = []
each f (x ∷ xs) = f x ++ each f xs

abbrev pub is_from : String → OutputRecord → Bool
is_from role r = elim r.from_role [ none ↦ false | some from ↦ from == role ]

-- `recordsByRole.get(role) ?? []`
unfoldable pub records_of : String → List OutputRecord → List OutputRecord
records_of role produced = keep (is_from role) produced

abbrev pub is_reuse : SkipReason → Bool
is_reuse reuse = true
is_reuse resume = false

-- `reuseTypesByRole.get(role)?.has(declared) === true`
unfoldable pub is_reused_type : String → String → List SkippedChair → Bool
is_reused_type role declared skipped =
    any (λ sk. is_reuse sk.reason && sk.role == role && includes declared sk.output_types) skipped

-- Whether a round of the first loop goes on without a violation.
unfoldable pub fits : List OutputRecord → List SkippedChair → Chair → String → Bool
fits produced skipped c declared =
    any (λ r. output_satisfies_type r declared) (records_of c.role produced)
    || is_reused_type c.role declared skipped
    || includes declared c.optional_outputs

unfoldable pub fit_violations :
    List Chair → List OutputRecord → List SkippedChair → List FitViolation
unfolding each
fit_violations chairs produced skipped =
    each
      (λ c.
        each
          (λ declared.
            if fits produced skipped c declared
            then []
            else record { chair_slug = c.role; declared_type = declared } ∷ [])
          c.output_contract)
      chairs

unfoldable pub is_declared : Chair → OutputRecord → Bool
is_declared c r = any (λ declared. output_satisfies_type r declared) c.output_contract

unfoldable pub fit_surplus : List Chair → List OutputRecord → List FitSurplus
unfolding each
fit_surplus chairs produced =
    each
      (λ c.
        each
          (λ r.
            if is_declared c r
            then []
            else record { chair_slug = c.role; sealed_type = r.domain_type } ∷ [])
          (records_of c.role produced))
      chairs

-- `new Map(chairs.map((c) => [c.role, c]))`: of two chairs of a role the later one stays.
unfoldable pub chair_by_role : List Chair → Dict Chair → Dict Chair
chair_by_role [] m = m
chair_by_role (c ∷ chairs) m = chair_by_role chairs (put c.role c m)

-- `shaToRole.get(sha)`: the role of the first record of this gig that has the hash.
unfoldable pub source_of : String → String → List OutputRecord → Option String
source_of gig sha [] = none
source_of gig sha (r ∷ produced) =
    let rest = source_of gig sha produced in
    elim r.from_role [
      | none ↦ rest
      | some role ↦ if r.gig_id == gig && r.content_sha == sha then some role else rest
    ]

-- The producer itself, what it depends on, and the chairs that depend on it.
unfoldable pub is_authorized : List Chair → Chair → String → Bool
is_authorized chairs producer source =
    producer.role == source
    || includes source producer.depends_on
    || any (λ c. c.role == source && includes producer.role c.depends_on) chairs

-- Whether a round over an input hash goes on without a violation.
abbrev pub respects : List Chair → Chair → String → Option String → Bool
respects chairs producer sha none = true
respects chairs producer sha (some source) = sha == "" || is_authorized chairs producer source

abbrev pub source_name : Option String → String
source_name (some source) = source
source_name none = ""

unfoldable pub shas_timing :
    List Chair → List OutputRecord → String → OutputRecord → Chair → List TimingViolation
unfolding each source_of is_authorized
shas_timing chairs produced gig r producer =
    each
      (λ sha.
        if respects chairs producer sha (source_of gig sha produced)
        then []
        else record {
          record_id = r.id;
          sealing_chair_slug = source_name r.from_role;
          unauthorized_sha = sha;
          unauthorized_source_chair_slug = source_name (source_of gig sha produced);
        }
          ∷ [])
      r.input_shas

-- The chair whose record is timed, if it is: none for one of another gig, a recalled one, one with no
-- role, and one whose role is not in the standard.
unfoldable pub producer_of : List Chair → String → OutputRecord → Option Chair
producer_of chairs gig r = elim r.from_role [
  | none ↦ none
  | some role ↦
      if r.gig_id == gig && not r.is_reused then lookup role (chair_by_role chairs []) else none
]

abbrev pub record_timing :
    List Chair → List OutputRecord → String → OutputRecord → Option Chair → List TimingViolation
record_timing chairs produced gig r none = []
record_timing chairs produced gig r (some producer) = shas_timing chairs produced gig r producer

unfoldable pub timing_violations : List Chair → List OutputRecord → String → List TimingViolation
unfolding each producer_of
timing_violations chairs produced gig =
    each (λ r. record_timing chairs produced gig r (producer_of chairs gig r)) produced

abbrev pub classify :
    List FitViolation → List FitSurplus → List TimingViolation → GigConformanceResult
classify [] [] [] = clean
classify vs ss ts = violated vs ss ts

unfoldable pub check_gig_conformance :
    List Chair → List OutputRecord → List SkippedChair → String → String → GigConformanceResult
unfolding fit_violations fit_surplus timing_violations
check_gig_conformance chairs produced skipped status gig =
    let verdict =
      classify (fit_violations chairs produced skipped) (fit_surplus chairs produced)
        (timing_violations chairs produced gig) in
    if status == "awaiting_approval"
    then incomplete status
    else if not (status == "complete")
    then failed status
    else verdict
