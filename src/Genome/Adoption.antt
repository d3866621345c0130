-- ===== src/Genome/Adoption.antt =====
-- What src/lineage_adoption.ts promises of an adoption and of a lineage that adoptions are written to.
use coltrane.Base.{
  String, Bool, true, false, Option, some, List, [], ◌∷◌, ◌++◌, ◌==◌, ◌≡◌, refl, sym, ◌∙◌, ◌↔◌,
  lookup, any, find, trim, or_else, map, includes, Unique, Unique-append, Bool-cases, inl, inr,
  if◌then◌else◌, append-nil, cons-nil,
}
use coltrane.Genome.Lineage.{
  AdoptionInput, AdoptionRefusal, LineageRecordRef, adopt, not_a_pass, no_approver, no_record_ref,
  no_target, is_pass, approver_of, refused_if, refusals_of, adoption_of, lineage_adoption,
  Institution, apply_lineage_adoption,
}

-- A verdict that passes, by someone, on some record, for some institution.
pub record IsGrounded (input : AdoptionInput) : Type 0 where
  pub passes : is_pass (lookup "pass" input.verdict) ≡ true
  pub approver : (approver_of input == "") ≡ false
  pub recorded : (trim input.record_ref == "") ≡ false
  pub target : (trim input.institution_slug == "") ≡ false

-- The reference that such an input asks for.
abbrev pub reference : AdoptionInput → LineageRecordRef
reference input = record {
  record_ref = trim input.record_ref;
  approved_by = approver_of input;
  question = input.question;
  sealed_at = input.sealed_at;
}

refused_if-nil : (bad : Bool) (reason : AdoptionRefusal) → refused_if bad reason ≡ [] → bad ≡ false
refused_if-nil false reason h = refl
refused_if-nil true reason h = cons-nil h

passed : (b : Bool) → (if b then [] else not_a_pass ∷ []) ≡ [] → b ≡ true
passed true h = refl
passed false h = cons-nil h

adoption_of-adopt :
    (rs : List AdoptionRefusal) (input : AdoptionInput)
    → (adoption_of rs input ≡ adopt (reference input) (trim input.institution_slug)) ↔ (rs ≡ [])
adoption_of-adopt [] input = (λ h. refl, λ h. refl)
adoption_of-adopt (r ∷ rs) input = (λ h. cc, λ h. cons-nil h)

refusals-nil : (input : AdoptionInput) → (refusals_of input ≡ []) ↔ IsGrounded input
refusals-nil input =
    let pass = is_pass (lookup "pass" input.verdict) in
    let a = if pass then [] else not_a_pass ∷ [] in
    let b = refused_if (approver_of input == "") no_approver in
    let c = refused_if (trim input.record_ref == "") no_record_ref in
    let d = refused_if (trim input.institution_slug == "") no_target in
    (
      λ h.
          let (abc, target) = append-nil (a ++ b ++ c) d h in
          let (ab, recorded) = append-nil (a ++ b) c abc in
          let (passing, approver) = append-nil a b ab in
          record {
            passes = passed pass passing;
            approver = refused_if-nil (approver_of input == "") no_approver approver;
            recorded = refused_if-nil (trim input.record_ref == "") no_record_ref recorded;
            target = refused_if-nil (trim input.institution_slug == "") no_target target;
          },
      λ g. rw (g.passes, g.approver, g.recorded, g.target),
    )

-- A reference is adopted exactly when the verdict's `pass` is the boolean true and the approver, the
-- record and the institution are not blank; the reference then carries the trimmed approver and
-- record, and it goes to the trimmed institution.
lineage_adoption_exact :
    (input : AdoptionInput)
    → (lineage_adoption input ≡ adopt (reference input) (trim input.institution_slug))
      ↔ IsGrounded input
unfolding lineage_adoption
lineage_adoption_exact input =
    let (there, back) = adoption_of-adopt (refusals_of input) input in
    let (grounded, none_) = refusals-nil input in (λ h. grounded (there h), λ g. back (none_ g))

module _ {ℓ} {A : Type ℓ} where
  abbrev pub written : Institution A → List LineageRecordRef
  written institution = or_else institution.lineage []

  -- The loop that writes adopted references, one after another.
  unfoldable pub adopt_all : Institution A → List LineageRecordRef → Institution A
  unfolding apply_lineage_adoption
  adopt_all institution [] = institution
  adopt_all institution (ref ∷ refs) = adopt_all (apply_lineage_adoption institution ref).0 refs

abbrev pub grounding : String → List LineageRecordRef → Option LineageRecordRef
grounding x refs = find (λ r. r.record_ref == x) refs

abbrev pub records : List LineageRecordRef → List String
records refs = map (λ r. r.record_ref) refs

any-records :
    (x : String) (refs : List LineageRecordRef)
    → any (λ r. r.record_ref == x) refs ≡ includes x (records refs)
unfolding any includes
any-records x [] = refl
any-records x (r ∷ refs) = rw (any-records x refs)

records-append :
    (refs : List LineageRecordRef) (ref : LineageRecordRef)
    → records (refs ++ ref ∷ []) ≡ records refs ++ ref.record_ref ∷ []
records-append [] ref = refl
records-append (r ∷ refs) ref = rw (records-append refs ref)

grounding-append :
    (x : String) (refs : List LineageRecordRef) (ref first : LineageRecordRef)
    → grounding x refs ≡ some first
    → grounding x (refs ++ ref ∷ []) ≡ some first
unfolding find
grounding-append x [] ref first h = cc
grounding-append x (r ∷ refs) ref first h = elim (Bool-cases (r.record_ref == x)) [
  | inl b ↦ rw b (rw b at h)
  | inr b ↦ rw b (grounding-append x refs ref first (rw b at h))
]

module _ {ℓ} {A : Type ℓ} where
  apply-Unique :
      (institution : Institution A) (ref : LineageRecordRef)
      → Unique (records (written institution))
      → Unique (records (written (apply_lineage_adoption institution ref).0))
  unfolding apply_lineage_adoption
  apply-Unique institution ref u =
      elim (Bool-cases (any (λ r. r.record_ref == ref.record_ref) (written institution))) [
        | inl b ↦ rw b u
        | inr b ↦
            rw (b, records-append (written institution) ref)
              (Unique-append ref.record_ref (records (written institution))
                (sym (any-records ref.record_ref (written institution)) ∙ b) u)
      ]

  -- Adoptions never write a record twice into a lineage: however many references are written, in
  -- whatever order, a lineage without repetition stays without one.
  adopt_all-Unique :
      (institution : Institution A) (refs : List LineageRecordRef)
      → Unique (records (written institution))
      → Unique (records (written (adopt_all institution refs)))
  unfolding adopt_all
  adopt_all-Unique institution [] u = u
  adopt_all-Unique institution (ref ∷ refs) u =
      adopt_all-Unique (apply_lineage_adoption institution ref).0 refs
        (apply-Unique institution ref u)

  kept :
      (institution : Institution A) (ref : LineageRecordRef) (x : String) (first : LineageRecordRef)
      → grounding x (written institution) ≡ some first
      → grounding x (written (apply_lineage_adoption institution ref).0) ≡ some first
  unfolding apply_lineage_adoption
  kept institution ref x first h =
      elim (Bool-cases (any (λ r. r.record_ref == ref.record_ref) (written institution))) [
        | inl b ↦ rw b h
        | inr b ↦ rw b (grounding-append x (written institution) ref first h)
      ]

  -- The first adoption of a record is the one that stays: a reference that a lineage holds is there,
  -- unchanged, after any further adoptions, those of the same record included.
  pub first_adoption_stays :
      (institution : Institution A) (refs : List LineageRecordRef) (x : String)
      (first : LineageRecordRef)
      → grounding x (written institution) ≡ some first
      → grounding x (written (adopt_all institution refs)) ≡ some first
  unfolding adopt_all
  first_adoption_stays institution [] x first h = h
  first_adoption_stays institution (ref ∷ refs) x first h =
      first_adoption_stays (apply_lineage_adoption institution ref).0 refs x first
        (kept institution ref x first h)
