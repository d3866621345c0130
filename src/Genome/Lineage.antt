-- ===== src/Genome/Lineage.antt =====
-- src/lineage_adoption.ts: whether a sealed verdict grounds an institution in a record, and the
-- institution with the reference written.
use coltrane.Base.{
  String, Bool, true, false, Option, some, List, [], ◌∷◌, ◌++◌, ◌==◌, Dict, lookup, any,
  if◌then◌else◌, trim, or_else,
}
use coltrane.Base.Json.{Json, bool, text_or}

pub data AdoptionRefusal : Type 0 where
  not_a_pass no_approver no_record_ref no_target : AdoptionRefusal

pub record LineageRecordRef : Type 0 where
  pub record_ref : String
  pub approved_by : String
  pub question : Option String
  pub sealed_at : Option String

-- `adopt` with `ref` and `institution_slug`, or the refusals.
pub data LineageAdoptionResult : Type 0 where
  adopt : LineageRecordRef → String → LineageAdoptionResult
  refuse : List AdoptionRefusal → LineageAdoptionResult

-- A verdict that is null or absent is an empty one; so are an absent record and institution.
pub record AdoptionInput : Type 0 where
  pub verdict : Dict Json
  pub record_ref : String
  pub question : Option String
  pub sealed_at : Option String
  pub institution_slug : String

abbrev pub is_pass : Option Json → Bool
is_pass (some (bool b)) = b
is_pass _ = false

abbrev pub approver_of : AdoptionInput → String
approver_of input = trim (text_or "" (lookup "approver" input.verdict))

-- `if (bad) refusals.push(reason)`
abbrev pub refused_if : Bool → AdoptionRefusal → List AdoptionRefusal
refused_if bad reason = if bad then reason ∷ [] else []

abbrev pub refusals_of : AdoptionInput → List AdoptionRefusal
refusals_of input =
    (if is_pass (lookup "pass" input.verdict) then [] else not_a_pass ∷ [])
    ++ refused_if (approver_of input == "") no_approver
    ++ refused_if (trim input.record_ref == "") no_record_ref
    ++ refused_if (trim input.institution_slug == "") no_target

abbrev pub adoption_of : List AdoptionRefusal → AdoptionInput → LineageAdoptionResult
adoption_of [] input =
    adopt
      (record {
        record_ref = trim input.record_ref;
        approved_by = approver_of input;
        question = input.question;
        sealed_at = input.sealed_at;
      })
      (trim input.institution_slug)
adoption_of (r ∷ rs) input = refuse (r ∷ rs)

unfoldable pub lineage_adoption : AdoptionInput → LineageAdoptionResult
lineage_adoption input = adoption_of (refusals_of input) input

-- An institution document: its lineage, where it has one, and the rest.
pub record Institution {ℓ} (A : Type ℓ) : Type ℓ where
  pub lineage : Option (List LineageRecordRef)
  pub rest : A

unfoldable pub apply_lineage_adoption {ℓ} :
    {A : Type ℓ} → Institution A → LineageRecordRef → Institution A × Bool
apply_lineage_adoption institution ref =
    let existing = or_else institution.lineage [] in
    if any (λ r. r.record_ref == ref.record_ref) existing
    then (institution, false)
    else (record institution { lineage = some (existing ++ ref ∷ []) }, true)
