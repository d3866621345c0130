-- ===== src/Genome/Versions.antt =====
-- src/type_versioning.ts: the class of a change to a domain type.
use coltrane.Base.{
  ℕ, ◌+◌, ◌≡◌, refl, String, Bool, true, false, List, [], ◌∷◌, Dict, keys, missing, missing-none,
  none-missing, includes, if◌then◌else◌, ◌↔◌, cons-nil,
}
use coltrane.Base.Json.{Json}

pub data ChangeClass : Type 0 where
  additive modified breaking : ChangeClass

pub data TypeStatus : Type 0 where
  active deprecated retired : TypeStatus

pub record DomainTypeDef : Type 0 where
  pub slug : String
  pub version : ℕ
  pub extends : String
  pub domain : String
  pub status : TypeStatus
  pub properties : Dict Json
  pub required_fields : List String

pub record TypeChangeProposal : Type 0 where
  pub change_class : ChangeClass
  pub approval_required : Bool
  pub next_version : ℕ
  pub old_version_stays : Bool

abbrev pub is_empty : List String → Bool
is_empty [] = true
is_empty (x ∷ xs) = false

-- The proposal from the lists of removed fields and of newly required ones.
abbrev propose : ℕ → List String → List String → TypeChangeProposal
propose version removed required =
    if is_empty removed
    then if is_empty required
      then record {
        change_class = additive;
        approval_required = false;
        next_version = version + 1;
        old_version_stays = false;
      }
      else record {
        change_class = modified;
        approval_required = false;
        next_version = version + 1;
        old_version_stays = true;
      }
    else record {
      change_class = breaking;
      approval_required = true;
      next_version = version + 1;
      old_version_stays = false;
    }

unfoldable pub propose_type_change : DomainTypeDef → DomainTypeDef → TypeChangeProposal
propose_type_change base next =
    propose base.version (missing (keys base.properties) (keys next.properties))
      (missing next.required_fields base.required_fields)

additive-empty :
    (version : ℕ) (removed required : List String)
    → ((propose version removed required).change_class ≡ additive)
      ↔ ((removed ≡ []) × (required ≡ []))
additive-empty version [] [] = (λ h. (refl, refl), λ h. refl)
additive-empty version [] (x ∷ xs) = (λ h. cc, λ h. cons-nil h.1)
additive-empty version (x ∷ xs) required = (λ h. cc, λ h. cons-nil h.0)

approval-removed :
    (version : ℕ) (removed required : List String)
    → ((propose version removed required).approval_required ≡ false) ↔ (removed ≡ [])
approval-removed version [] [] = (λ h. refl, λ h. refl)
approval-removed version [] (x ∷ xs) = (λ h. refl, λ h. refl)
approval-removed version (x ∷ xs) required = (λ h. cc, λ h. cons-nil h)

-- Each field of one type is a field of the other.
abbrev KeepsFields : DomainTypeDef → DomainTypeDef → Type 0
KeepsFields base next =
    (n : String)
    → includes n (keys base.properties) ≡ true
    → includes n (keys next.properties) ≡ true

-- What the second type requires, the first did already.
abbrev RequiresNoMore : DomainTypeDef → DomainTypeDef → Type 0
RequiresNoMore base next =
    (n : String) → includes n next.required_fields ≡ true → includes n base.required_fields ≡ true

-- What `proposeTypeChange` says of a change, against the fields of the two types.
pub record IsClassified (base next : DomainTypeDef) (p : TypeChangeProposal) : Type 0 where
  pub additive_exact :
      (p.change_class ≡ additive) ↔ (KeepsFields base next × RequiresNoMore base next)
  pub approval_exact : (p.approval_required ≡ false) ↔ KeepsFields base next

-- A change is additive exactly if it keeps every field and requires no field that was not required
-- before; it needs no approval exactly if it keeps every field.
propose_type_change-IsClassified :
    (base next : DomainTypeDef) → IsClassified base next (propose_type_change base next)
unfolding propose_type_change
propose_type_change-IsClassified base next =
    let removed = missing (keys base.properties) (keys next.properties) in
    let required = missing next.required_fields base.required_fields in
    let (there, back) = additive-empty base.version removed required in
    let (approved, asked) = approval-removed base.version removed required in
    record {
      additive_exact = (
        λ h. (
          λ n. missing-none (keys base.properties) (keys next.properties) n (there h).0,
          λ n. missing-none next.required_fields base.required_fields n (there h).1,
        ),
        λ (k, r). back (
          none-missing (keys base.properties) (keys next.properties) k,
          none-missing next.required_fields base.required_fields r,
        ),
      );
      approval_exact = (
        λ h. λ n. missing-none (keys base.properties) (keys next.properties) n (approved h),
        λ k. asked (none-missing (keys base.properties) (keys next.properties) k),
      );
    }

-- Additive changes compose: where one step adds to a type and the next adds to the result, the whole
-- change from the first type to the last is additive as well.
additive_trans :
    (base mid next : DomainTypeDef)
    → (propose_type_change base mid).change_class ≡ additive
    → (propose_type_change mid next).change_class ≡ additive
    → (propose_type_change base next).change_class ≡ additive
additive_trans base mid next h k =
    let (f, r) = (propose_type_change-IsClassified base mid).additive_exact.0 h in
    let (g, q) = (propose_type_change-IsClassified mid next).additive_exact.0 k in
    (propose_type_change-IsClassified base next).additive_exact.1
      (λ n i. g n (f n i), λ n i. r n (q n i))
