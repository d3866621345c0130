-- ===== src/Access/Plans.antt =====
-- `validatePlanAgainstGrant` of src/access_grant.ts.
use coltrane.Base.{
  ◌≤◌, ◌≡◌, refl, String, Bool, true, false, ◌||◌, Option, none, some, List, [], ◌∷◌, length, any,
  arith, All, ◌↔◌, Bool-cases, inl, inr, ◌==◌, ltb,
}
use coltrane.Access.{
  AccessGrant, Scope, PlanCheck, PlanResult, valid, too_many_files, too_many_lines, matches_glob,
  first_excluded, file_result, check_files, validate_plan_against_grant,
}

module _ (test : String → String → Bool) where
  -- A file that matches an allowed path, and neither matches nor equals an excluded one.
  pub record IsInScope (scope : Scope) (f : String) : Type 0 where
    pub allowed : any (λ p. matches_glob test p f) scope.paths ≡ true
    pub not_excluded : any (λ ex. matches_glob test ex f || f == ex) scope.excluded_paths ≡ false

  first_excluded-any :
      (f : String) (exs : List String)
      → (first_excluded test f exs ≡ none)
        ↔ (any (λ ex. matches_glob test ex f || f == ex) exs ≡ false)
  unfolding first_excluded any
  first_excluded-any f [] = (λ h. refl, λ h. refl)
  first_excluded-any f (ex ∷ exs) =
      let (there, back) = first_excluded-any f exs in
      (λ h. ground (arith, there, h), λ h. ground (arith, back, h))

  file_result-valid :
      (f : String) (o : Option String) (b : Bool) (rest : PlanResult)
      → (file_result f o b rest ≡ valid) ↔ ((o ≡ none) × (b ≡ true) × (rest ≡ valid))
  file_result-valid f (some ex) b rest = (λ h. cc, λ h. cc)
  file_result-valid f none false rest = (λ h. cc, λ h. cc)
  file_result-valid f none true rest = (λ h. (refl, refl, h), λ h. h.2)

  check_files-valid :
      (scope : Scope) (files : List String)
      → (check_files test scope files ≡ valid) ↔ All (IsInScope scope) files
  unfolding check_files
  check_files-valid scope [] = (λ h. tt, λ h. refl)
  check_files-valid scope (f ∷ files) =
      let here =
        file_result-valid f (first_excluded test f scope.excluded_paths)
          (any (λ p. matches_glob test p f) scope.paths) (check_files test scope files) in
      let (there, back) = check_files-valid scope files in
      let (out, in_) = first_excluded-any f scope.excluded_paths in
      (
        λ h.
            let (none_, allowed, rest) = here.0 h in
            (record { allowed = allowed; not_excluded = out none_ }, there rest),
        λ (s, ss). here.1 (in_ s.not_excluded, s.allowed, back ss),
      )

  invalid {ℓ} : {A : Type ℓ} → too_many_files ≡ valid → A
  invalid h = cc

  invalid_lines {ℓ} : {A : Type ℓ} → too_many_lines ≡ valid → A
  invalid_lines h = cc

  -- What a grant asks of a plan.
  pub record IsGranted (patch : PlanCheck) (grant : AccessGrant) : Type 0 where
    pub few_files : length patch.files ≤ grant.scope.max_files_per_patch
    pub few_lines : patch.lines_changed ≤ grant.scope.max_lines_per_patch
    pub in_scope : All (IsInScope grant.scope) patch.files

  -- A plan is valid against a grant exactly if it keeps to the limits on files and on lines, and each
  -- of its files matches an allowed path and neither matches nor equals an excluded one.
  pub validate_plan_exact :
      (patch : PlanCheck) (grant : AccessGrant)
      → (validate_plan_against_grant test patch grant ≡ valid) ↔ IsGranted patch grant
  unfolding validate_plan_against_grant
  validate_plan_exact patch grant =
      let files = Bool-cases (ltb grant.scope.max_files_per_patch (length patch.files)) in
      let lines = Bool-cases (ltb grant.scope.max_lines_per_patch patch.lines_changed) in
      (
        λ h. elim files [
          | inl f ↦ invalid (rw f at h)
          | inr f ↦ elim lines [
            | inl l ↦ invalid_lines (rw (f, l) at h)
            | inr l ↦ record {
              few_files = ground (arith, f);
              few_lines = ground (arith, l);
              in_scope = (check_files-valid grant.scope patch.files).0 (rw (f, l) at h);
            }
          ]
        ],
        λ g. elim files [
          | inl f ↦ ground (arith, f, g.few_files)
          | inr f ↦ elim lines [
            | inl l ↦ ground (arith, l, g.few_lines)
            | inr l ↦ rw (f, l, (check_files-valid grant.scope patch.files).1 g.in_scope)
          ]
        ],
      )
