-- ===== src/GigConformance/Verdicts.antt =====
-- What the verdicts of src/gig_conformance.ts say of a run.
use coltrane.Base.{
  Some, Tells, keep, subst, none-some, some-eq_some, ◌∙◌, String, ◌≡◌, ◌≢◌, refl, Bool, true, false,
  Option, none, some, List, [], ◌∷◌, ◌==◌, ◌↔◌, ◌⊎◌, All, append-nil, cons-nil, if◌then◌else◌,
  Bool-cases, inl, inr, eq_iff, sym, true-false,
}
use coltrane.GigConformance.Declared.{
  Satisfies, IsFrom, IsMet, from_tells, fits-Tells, is_declared-Tells,
}
use coltrane.GigConformance.Origins.{
  IsMaker, MayRead, IsTimedBy, respects_reads, source_of-IsMaker, producer_of-IsTimedBy,
}
use coltrane.GigConformance.{
  is_from, Chair, OutputRecord, SkippedChair, FitViolation, FitSurplus, TimingViolation, clean,
  incomplete, failed, each, records_of, fits, fit_violations, is_declared, fit_surplus, respects,
  source_of, shas_timing, producer_of, record_timing, timing_violations, classify,
  check_gig_conformance,
}

each-nil {ℓ κ} :
    {A : Type ℓ} {B : Type κ} (f : A → List B) (xs : List A)
    → (each f xs ≡ []) ↔ All (λ x. f x ≡ []) xs
unfolding each
each-nil f [] = (λ h. tt, λ h. refl)
each-nil f (x ∷ xs) =
    let (there, back) = each-nil f xs in
    (
      λ h. let (first, rest) = append-nil (f x) (each f xs) h in (first, there rest),
      λ (h, hs). rw (h, back hs),
    )

All-iff {ℓ κ μ} :
    {A : Type ℓ} (P : A → Type κ) (Q : A → Type μ) (f : (a : A) → P a ↔ Q a) (xs : List A)
    → All P xs ↔ All Q xs
All-iff P Q f [] = (λ h. tt, λ h. tt)
All-iff P Q f (x ∷ xs) =
    let (there, back) = All-iff P Q f xs in
    (λ (h, hs). ((f x).0 h, there hs), λ (h, hs). ((f x).1 h, back hs))

-- A round that pushes one thing unless it passes
pushed-nil {ℓ} : {B : Type ℓ} (b : Bool) (x : B) → ((if b then [] else x ∷ []) ≡ []) ↔ (b ≡ true)
pushed-nil true x = (λ h. refl, λ h. refl)
pushed-nil false x = (λ h. cons-nil h, λ h. true-false (sym h))

passes-All {ℓ κ} :
    {A : Type ℓ} {B : Type κ} (p : A → Bool) (v : A → B) (xs : List A)
    → (each (λ x. if p x then [] else v x ∷ []) xs ≡ []) ↔ All (λ x. p x ≡ true) xs
passes-All p v xs =
    let (there, back) = each-nil (λ x. if p x then [] else v x ∷ []) xs in
    let (on, off) =
      All-iff (λ x. (if p x then [] else v x ∷ []) ≡ []) (λ x. p x ≡ true)
        (λ x. pushed-nil (p x) (v x)) xs in
    (λ h. on (there h), λ h. back (off h))

both {ℓ κ μ} : {P : Type ℓ} {Q : Type κ} {R : Type μ} → P ↔ Q → Q ↔ R → P ↔ R
both (f, g) (h, k) = (λ p. h (f p), λ r. g (k r))

-- Every declared output of every chair was sealed by that chair, recalled for it, or optional.
abbrev pub Fit : List Chair → List OutputRecord → List SkippedChair → Type 0
Fit chairs produced skipped = All (λ c. All (IsMet produced skipped c) c.output_contract) chairs

-- Every chair sealed only what it declared.
abbrev pub NoSurplus : List Chair → List OutputRecord → Type 0
NoSurplus chairs produced =
    All (λ c. All (λ r. IsFrom c.role r → Some (Satisfies r) c.output_contract) produced) chairs

-- A chair may read whatever a record of the run was made from.
abbrev pub Timed : List Chair → List OutputRecord → String → OutputRecord → Chair → Type 0
Timed chairs produced gig r producer =
    All
      (λ sha.
        (source : String)
        → IsMaker gig sha source produced
        → sha ≢ ""
        → MayRead chairs producer source)
      r.input_shas

-- Every record that the run made was made from nothing but what its chair may read.
abbrev pub AllTimed : List Chair → List OutputRecord → String → Type 0
AllTimed chairs produced gig =
    All
      (λ r.
        (producer : Chair) → IsTimedBy chairs gig r producer → Timed chairs produced gig r producer)
      produced

-- A statement on the members that a test lets pass
All-keep {ℓ κ} :
    {A : Type ℓ} (P : A → Type κ) (Q : A → Type 0) (q : A → Bool) (t : (x : A) → Tells (q x) (Q x))
    (xs : List A)
    → All P (keep q xs) ↔ All (λ x. Q x → P x) xs
unfolding keep
All-keep P Q q t [] = (λ h. tt, λ h. tt)
All-keep P Q q t (x ∷ xs) =
    let (there, back) = All-keep P Q q t xs in
    elim (Bool-cases (q x)) [
      | inl e ↦ rw e (λ (h, hs). (λ _. h, there hs), λ (h, hs). (h ((t x).0 e), back hs))
      | inr e ↦ rw e (λ hs. (λ k. true-false (sym ((t x).1 k) ∙ e), there hs), λ h. back h.1)
    ]

fit_violations-nil :
    (chairs : List Chair) (produced : List OutputRecord) (skipped : List SkippedChair)
    → (fit_violations chairs produced skipped ≡ []) ↔ Fit chairs produced skipped
unfolding fit_violations
fit_violations-nil chairs produced skipped = both (each-nil _ chairs) (
    All-iff _ _
      (λ c.
        both
          (passes-All (fits produced skipped c)
            (λ d. record { chair_slug = c.role; declared_type = d }) c.output_contract)
          (All-iff _ (IsMet produced skipped c) (fits-Tells produced skipped c) c.output_contract))
      chairs)

fit_surplus-nil :
    (chairs : List Chair) (produced : List OutputRecord)
    → (fit_surplus chairs produced ≡ []) ↔ NoSurplus chairs produced
unfolding fit_surplus records_of
fit_surplus-nil chairs produced = both (each-nil _ chairs) (
    All-iff _ _
      (λ c.
        both
          (passes-All (is_declared c)
            (λ r. record { chair_slug = c.role; sealed_type = r.domain_type })
            (records_of c.role produced))
          (both
            (All-iff _ (λ r. Some (Satisfies r) c.output_contract) (is_declared-Tells c)
              (records_of c.role produced))
            (All-keep (λ r. Some (Satisfies r) c.output_contract) (IsFrom c.role) (is_from c.role)
              (λ r. from_tells c.role r.from_role) produced)))
      chairs)

-- The rounds over the input hashes of a record
shas_timing-nil :
    (chairs : List Chair) (produced : List OutputRecord) (gig : String) (r : OutputRecord)
    (producer : Chair)
    → (shas_timing chairs produced gig r producer ≡ []) ↔ Timed chairs produced gig r producer
unfolding shas_timing
shas_timing-nil chairs produced gig r producer =
    both
      (passes-All (λ sha. respects chairs producer sha (source_of gig sha produced)) _ r.input_shas)
      (All-iff _ _
        (λ sha.
          let (there, back) = respects_reads chairs producer sha (source_of gig sha produced) in
          (
            λ e source m. there e source ((source_of-IsMaker gig sha source produced).1 m),
            λ f. back (λ source h. f source ((source_of-IsMaker gig sha source produced).0 h)),
          ))
        r.input_shas)

record_timing-nil :
    (chairs : List Chair) (produced : List OutputRecord) (gig : String) (r : OutputRecord)
    (o : Option Chair)
    → (record_timing chairs produced gig r o ≡ [])
      ↔ ((producer : Chair) → o ≡ some producer → Timed chairs produced gig r producer)
record_timing-nil chairs produced gig r none = (λ e producer h. none-some h, λ f. refl)
record_timing-nil chairs produced gig r (some c) =
    let (there, back) = shas_timing-nil chairs produced gig r c in
    (
      λ e producer h. subst (Timed chairs produced gig r) (some-eq_some h) (there e),
      λ f. back (f c refl),
    )

timing_violations-nil :
    (chairs : List Chair) (produced : List OutputRecord) (gig : String)
    → (timing_violations chairs produced gig ≡ []) ↔ AllTimed chairs produced gig
unfolding timing_violations
timing_violations-nil chairs produced gig = both (each-nil _ produced) (
    All-iff _ _
      (λ r.
        let (there, back) = record_timing-nil chairs produced gig r (producer_of chairs gig r) in
        (
          λ e producer t. there e producer ((producer_of-IsTimedBy chairs gig r producer).1 t),
          λ f. back (λ producer h. f producer ((producer_of-IsTimedBy chairs gig r producer).0 h)),
        ))
      produced)

classify-clean :
    (vs : List FitViolation) (ss : List FitSurplus) (ts : List TimingViolation)
    → (classify vs ss ts ≡ clean) ↔ ((vs ≡ []) × (ss ≡ []) × (ts ≡ []))
classify-clean [] [] [] = (λ h. (refl, refl, refl), λ h. refl)
classify-clean [] [] (t ∷ ts) = (λ h. cc, λ h. cons-nil h.2)
classify-clean [] (s ∷ ss) ts = (λ h. cc, λ h. cons-nil h.1)
classify-clean (v ∷ vs) ss ts = (λ h. cc, λ h. cons-nil h.0)

-- What it takes for a run to be clean.
pub record IsClean (chairs : List Chair) (produced : List OutputRecord)
    (skipped : List SkippedChair) (status gig : String) : Type 0 where
  pub completed : status ≡ "complete"
  pub fit : Fit chairs produced skipped
  pub no_surplus : NoSurplus chairs produced
  pub timed : AllTimed chairs produced gig

verdict_clean :
    (chairs : List Chair) (produced : List OutputRecord) (skipped : List SkippedChair)
    (gig : String)
    → (classify
          (fit_violations chairs produced skipped)
          (fit_surplus chairs produced)
          (timing_violations chairs produced gig)
        ≡ clean)
      ↔ (Fit chairs produced skipped × NoSurplus chairs produced × AllTimed chairs produced gig)
verdict_clean chairs produced skipped gig =
    let (nils, cleaned) =
      classify-clean (fit_violations chairs produced skipped) (fit_surplus chairs produced)
        (timing_violations chairs produced gig) in
    let (fit, fit_back) = fit_violations-nil chairs produced skipped in
    let (declared, declared_back) = fit_surplus-nil chairs produced in
    let (timed, timed_back) = timing_violations-nil chairs produced gig in
    (
      λ h. let (a, b, c) = nils h in (fit a, declared b, timed c),
      λ (a, b, c). cleaned (fit_back a, declared_back b, timed_back c),
    )

not_clean {ℓ} : {A : Type ℓ} {s : String} → incomplete s ≡ clean → A
not_clean h = cc

failed_clean {ℓ} : {A : Type ℓ} {s : String} → failed s ≡ clean → A
failed_clean h = cc

-- A run is clean exactly if it completed; every declared output of every chair was sealed by the chair,
-- recalled for it or optional; no chair sealed what it did not declare; and of every record that was made
-- in this gig, and not recalled, by the chair of a role, each input that has a hash, and that was first made
-- in this gig by some role, was made by the role of the chair itself, by one that it depends on, or by one
-- that depends on it.
pub check_gig_conformance_exact :
    (chairs : List Chair) (produced : List OutputRecord) (skipped : List SkippedChair)
    (status gig : String)
    → (check_gig_conformance chairs produced skipped status gig ≡ clean)
      ↔ IsClean chairs produced skipped status gig
unfolding check_gig_conformance
check_gig_conformance_exact chairs produced skipped status gig =
    let (there, back) = verdict_clean chairs produced skipped gig in
    (
      λ h. elim (Bool-cases (status == "awaiting_approval")) [
        | inl a ↦ not_clean (rw a at h)
        | inr a ↦ elim (Bool-cases (status == "complete")) [
          | inl c ↦
              let (f, s, t) = there (rw (a, c) at h) in
              record {
                completed = (eq_iff status "complete").0 c;
                fit = f;
                no_surplus = s;
                timed = t;
              }
          | inr c ↦ failed_clean (rw (a, c) at h)
        ]
      ],
      λ k. rw (k.completed) (back (k.fit, k.no_surplus, k.timed)),
    )

-- A run that did not complete is described and never condemned: whatever it sealed, its verdict names
-- no violation.
unfinished_not_violated :
    (chairs : List Chair) (produced : List OutputRecord) (skipped : List SkippedChair)
    (status gig : String)
    → status ≢ "complete"
    → (check_gig_conformance chairs produced skipped status gig ≡ incomplete status)
      ⊎ (check_gig_conformance chairs produced skipped status gig ≡ failed status)
unfolding check_gig_conformance
unfinished_not_violated chairs produced skipped status gig h =
    elim (Bool-cases (status == "awaiting_approval")) [
      | inl a ↦ inl (rw a)
      | inr a ↦ elim (Bool-cases (status == "complete")) [
        | inl c ↦ absurd (h ((eq_iff status "complete").0 c))
        | inr c ↦ inr (rw (a, c))
      ]
    ]
