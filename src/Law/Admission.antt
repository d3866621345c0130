-- ===== src/Law/Admission.antt =====
-- `checkInstitutionAdmissibility` and `checkChair` of src/institution_enforcement.ts.
use coltrane.Base.{
  ℕ, String, ◌≡◌, refl, sym, ◌∙◌, true, Option, none, some, List, [], ◌∷◌, ◌↔◌, Bool-cases, ◌⊎◌, ap,
  subst, eq_iff, ◌==◌, inl, inr, All,
}
use coltrane.Base.Json.{Json, str, Items}
use coltrane.Law.Admissibility.{
  AdmissibilityOffender, text_or_default, is_marked, admissibility, check_obligations, member,
  check_law, check_institution_admissibility, gather, array_or_empty, check_chair, listed,
}
use coltrane.Law.Admitted.{AdmissibleLaw, check_law_exact}
use coltrane.Base.{append-nil, cons-nil, true-false}

gather-All :
    (check : Json → List AdmissibilityOffender) (vs : List Json)
    → gather check vs ≡ []
    → All (λ v. check v ≡ []) vs
unfolding gather
gather-All check [] h = tt
gather-All check (v ∷ vs) h =
    let (first, rest) = append-nil (check v) (gather check vs) h in
    (first, gather-All check vs rest)

All-gather :
    (check : Json → List AdmissibilityOffender) (vs : List Json)
    → All (λ v. check v ≡ []) vs
    → gather check vs ≡ []
unfolding gather
All-gather check [] h = refl
All-gather check (v ∷ vs) (h, hs) = rw (h, All-gather check vs hs)

All-map {ℓ κ μ} :
    {A : Type ℓ} (P : A → Type κ) (Q : A → Type μ) (f : (a : A) → P a → Q a) (xs : List A)
    → All P xs
    → All Q xs
All-map P Q f [] h = tt
All-map P Q f (x ∷ xs) (h, hs) = (f x h, All-map P Q f xs hs)

-- A tier that is the text "declared" or the text "enforced".
abbrev pub SaysTier : Option Json → Type 0
SaysTier o = (o ≡ some (str "declared")) ⊎ (o ≡ some (str "enforced"))

is_marked-SaysTier : (o : Option Json) → (is_marked o ≡ true) ↔ SaysTier o
is_marked-SaysTier (some (str t)) = (
  λ h. elim (Bool-cases (t == "declared")) [
    | inl d ↦ inl (ap (λ u. some (str u)) ((eq_iff t "declared").0 d))
    | inr d ↦ inr (ap (λ u. some (str u)) ((eq_iff t "enforced").0 (rw d at h)))
  ],
  λ says. elim says [
    | inl e ↦ subst (λ o. is_marked o ≡ true) (sym e) refl
    | inr e ↦ subst (λ o. is_marked o ≡ true) (sym e) refl
  ],
)
is_marked-SaysTier _ = (λ h. true-false (sym h), λ says. elim says [ inl e ↦ cc | inr e ↦ cc ])

-- A chair each of whose obligations says its tier.
abbrev pub MarkedChair : Json → Type 0
MarkedChair chair =
    All (λ o. SaysTier (member "tier" o)) (array_or_empty (member "obligations" chair))

check_obligations-marked :
    (role : String) (os : List Json)
    → (check_obligations role os ≡ []) ↔ All (λ o. SaysTier (member "tier" o)) os
unfolding check_obligations
check_obligations-marked role [] = (λ h. tt, λ h. refl)
check_obligations-marked role (o ∷ os) =
    let (there, back) = check_obligations-marked role os in
    let (says, said) = is_marked-SaysTier (member "tier" o) in
    elim (Bool-cases (is_marked (member "tier" o))) [
      | inl m ↦ (λ h. (says m, there (rw m at h)), λ h. rw (m, back h.1))
      | inr m ↦ (λ h. cons-nil (rw m at h), λ h. true-false (sym (said h.0) ∙ m))
    ]

abbrev pub listed_or_none : Option Items → List Json
listed_or_none (some vs) = listed vs
listed_or_none none = []

admissibility-nil : (os : List AdmissibilityOffender) → (admissibility os).admitted ≡ true → os ≡ []
admissibility-nil [] h = refl
admissibility-nil (o ∷ os) h = cc

laws-Admissible :
    (show : ℕ → String) (laws : List Json)
    → gather (check_law show) laws ≡ []
    → All (AdmissibleLaw show) laws
laws-Admissible show laws h =
    All-map (λ v. check_law show v ≡ []) (AdmissibleLaw show) (λ v. (check_law_exact show v).0) laws
      (gather-All (check_law show) laws h)

Admissible-laws :
    (show : ℕ → String) (laws : List Json)
    → All (AdmissibleLaw show) laws
    → gather (check_law show) laws ≡ []
Admissible-laws show laws h = All-gather (check_law show) laws (
    All-map (AdmissibleLaw show) (λ v. check_law show v ≡ []) (λ v. (check_law_exact show v).1) laws
      h)

role_of : Json → String
role_of chair = text_or_default "(chair)" (member "role" chair)

chairs-Marked : (chairs : List Json) → gather check_chair chairs ≡ [] → All MarkedChair chairs
unfolding role_of
chairs-Marked chairs h =
    All-map (λ c. check_chair c ≡ []) MarkedChair
      (λ c. (check_obligations-marked (role_of c) (array_or_empty (member "obligations" c))).0)
      chairs (gather-All check_chair chairs h)

Marked-chairs : (chairs : List Json) → All MarkedChair chairs → gather check_chair chairs ≡ []
unfolding role_of
Marked-chairs chairs h = All-gather check_chair chairs (
    All-map MarkedChair (λ c. check_chair c ≡ [])
      (λ c. (check_obligations-marked (role_of c) (array_or_empty (member "obligations" c))).1)
      chairs h)

-- An institution is admitted exactly if each of its laws is admissible, in the sense of
-- `AdmissibleLaw`, and each obligation of each of its chairs is marked "declared" or "enforced".
pub check_institution_admissibility_exact :
    (show : ℕ → String) (institution : Json) (chairs : Option Items)
    → ((check_institution_admissibility show institution chairs).admitted ≡ true) ↔ (
        All (AdmissibleLaw show) (array_or_empty (member "laws" institution))
        × All MarkedChair (listed_or_none chairs))
unfolding check_institution_admissibility
check_institution_admissibility_exact show institution (some chairs) =
    let laws = array_or_empty (member "laws" institution) in
    (
      λ h.
          let (ls, cs) =
            append-nil (gather (check_law show) laws) (gather check_chair (listed chairs))
              (admissibility-nil _ h) in
          (laws-Admissible show laws ls, chairs-Marked (listed chairs) cs),
      λ (ls, cs). rw (Admissible-laws show laws ls, Marked-chairs (listed chairs) cs),
    )
check_institution_admissibility_exact show institution none =
    let laws = array_or_empty (member "laws" institution) in
    (
      λ h. (laws-Admissible show laws (admissibility-nil _ h), tt),
      λ h. rw (Admissible-laws show laws h.0),
    )
