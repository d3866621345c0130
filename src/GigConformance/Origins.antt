-- ===== src/GigConformance/Origins.antt =====
-- Who made what a record of src/gig_conformance.ts was made from, and who may read it.
use coltrane.Base.{
  String, ◌≡◌, ◌≢◌, refl, sym, ap, ◌∙◌, subst, Bool, true, false, not, ◌&&◌, Option, none, some,
  List, [], ◌∷◌, ◌==◌, ◌↔◌, ◌⊎◌, inl, inr, All, Some, Tells, both_tell, either_tells, any-Tells,
  includes-Tells, Dict, lookup, put, lookup-put, if◌then◌else◌, Bool-cases, Option-cases, eq_iff,
  true-false, none-some, some-eq_some, true-false_absurd,
}
use coltrane.GigConformance.{
  Chair, OutputRecord, chair_by_role, source_of, is_authorized, respects, producer_of,
}
use coltrane.GigConformance.Declared.{IsFrom}

-- The chair of a role, the last one that has it
abbrev pub IsSeat : String → Chair → List Chair → Type 0
IsSeat role producer [] = ⊥
IsSeat role producer (c ∷ chairs) =
    IsSeat role producer chairs
    ⊎ (All (λ d. d.role ≢ role) chairs × ((c.role ≡ role) × (c ≡ producer)))

-- The role that made a hash in a gig, the first one that did
abbrev pub Makes : String → String → OutputRecord → Type 0
Makes gig sha r = (r.gig_id ≡ gig) × (r.content_sha ≡ sha)

abbrev pub IsMaker : String → String → String → List OutputRecord → Type 0
IsMaker gig sha source [] = ⊥
IsMaker gig sha source (r ∷ produced) =
    (IsFrom source r × Makes gig sha r)
    ⊎ (((r.from_role ≡ none) ⊎ (¬ Makes gig sha r)) × IsMaker gig sha source produced)

-- A chair may read what it made itself, what a chair made that it depends on, and what a chair made that
-- depends on it.
abbrev pub MayRead : List Chair → Chair → String → Type 0
MayRead chairs producer source =
    ((producer.role ≡ source) ⊎ Some (λ t. t ≡ source) producer.depends_on)
    ⊎ Some (λ c. (c.role ≡ source) × Some (λ t. t ≡ producer.role) c.depends_on) chairs

is_authorized-Tells :
    (chairs : List Chair) (producer : Chair) (source : String)
    → Tells (is_authorized chairs producer source) (MayRead chairs producer source)
unfolding is_authorized
is_authorized-Tells chairs producer source =
    either_tells
      (either_tells (eq_iff producer.role source) (includes-Tells source producer.depends_on))
      (any-Tells (λ c. (c.role ≡ source) × Some (λ t. t ≡ producer.role) c.depends_on) _
        (λ c. both_tell (eq_iff c.role source) (includes-Tells producer.role c.depends_on)) chairs)

pub respects_reads :
    (chairs : List Chair) (producer : Chair) (sha : String) (o : Option String)
    → (respects chairs producer sha o ≡ true)
      ↔ ((source : String) → o ≡ some source → sha ≢ "" → MayRead chairs producer source)
respects_reads chairs producer sha none = (λ e source h. none-some h, λ f. refl)
respects_reads chairs producer sha (some from) =
    let (there, back) = either_tells (eq_iff sha "") (is_authorized-Tells chairs producer from) in
    (
      λ e source h given. elim (there e) [
        | inl blank ↦ absurd (given blank)
        | inr may ↦ subst (MayRead chairs producer) (some-eq_some h) may
      ],
      λ f. elim (Bool-cases (sha == "")) [
        | inl e ↦ rw e refl
        | inr e ↦ back (inr (f from refl (λ blank. true-false (sym ((eq_iff sha "").1 blank) ∙ e))))
      ],
    )

pub source_of-IsMaker :
    (gig sha source : String) (produced : List OutputRecord)
    → (source_of gig sha produced ≡ some source) ↔ IsMaker gig sha source produced
unfolding source_of
source_of-IsMaker gig sha source [] = (λ h. none-some h, λ m. absurd m)
source_of-IsMaker gig sha source (r ∷ produced) =
    let (there, back) = source_of-IsMaker gig sha source produced in
    let (makes, made) = both_tell (eq_iff r.gig_id gig) (eq_iff r.content_sha sha) in
    elim (Option-cases r.from_role) [
      | inl e ↦ rw e (
        λ h. inr (inl refl, there h),
        λ s. elim s [ inl (f, _) ↦ none-some f | inr (_, m) ↦ back m ],
      )
      | inr (role, e) ↦ elim (Bool-cases (r.gig_id == gig && r.content_sha == sha)) [
        | inl t ↦
            rw (e, t)
              (
                λ h. inl (h, makes t),
                λ s. elim s [
                  | inl (f, _) ↦ f
                  | inr (other, m) ↦ elim other [
                    | inl n ↦ none-some (sym n)
                    | inr n ↦ absurd (n (makes t))
                  ]
                ],
              )
        | inr t ↦
            rw (e, t)
              (
                λ h. inr (inr (λ k. true-false (sym (made k) ∙ t)), there h),
                λ s. elim s [ inl (f, k) ↦ true-false (sym (made k) ∙ t) | inr (_, m) ↦ back m ],
              )
      ]
    ]

lookup-chair_by_role :
    (role : String) (p : Chair) (chairs : List Chair) (m : Dict Chair)
    → (lookup role (chair_by_role chairs m) ≡ some p)
      ↔ (IsSeat role p chairs ⊎ (All (λ d. d.role ≢ role) chairs × (lookup role m ≡ some p)))
unfolding chair_by_role
lookup-chair_by_role role p [] m =
    (λ h. inr (tt, h), λ s. elim s [ inl n ↦ absurd n | inr h ↦ h.1 ])
lookup-chair_by_role role p (c ∷ chairs) m =
    let (there, back) = lookup-chair_by_role role p chairs (put c.role c m) in
    let (named, name) = eq_iff c.role role in
    elim (Bool-cases (c.role == role)) [
      | inl e ↦
          let q : lookup role (put c.role c m) ≡ some c =
            lookup-put c.role role c m ∙ ap (λ b. if b then some c else lookup role m) e in
          (
            λ h. elim (there h) [
              | inl s ↦ inl (inl s)
              | inr (n, l) ↦ inl (inr (n, (named e, some-eq_some (sym q ∙ l))))
            ],
            λ s. elim s [
              | inl t ↦ elim t [
                | inl later ↦ back (inl later)
                | inr (n, (_, same)) ↦ back (inr (n, q ∙ ap some same))
              ]
              | inr (ne, l) ↦ absurd (ne.0 (named e))
            ],
          )
      | inr e ↦
          let q : lookup role (put c.role c m) ≡ lookup role m =
            lookup-put c.role role c m ∙ ap (λ b. if b then some c else lookup role m) e in
          (
            λ h. elim (there h) [
              | inl s ↦ inl (inl s)
              | inr (n, l) ↦ inr ((λ k. true-false (sym (name k) ∙ e), n), sym q ∙ l)
            ],
            λ s. elim s [
              | inl t ↦ elim t [
                | inl later ↦ back (inl later)
                | inr (n, (k, _)) ↦ true-false (sym (name k) ∙ e)
              ]
              | inr (ne, l) ↦ back (inr (ne.1, q ∙ l))
            ],
          )
    ]

not-reused : (b : Bool) → Tells (not b) (b ≡ false)
not-reused true = (λ e. true-false_absurd e, λ h. true-false h)
not-reused false = (λ e. refl, λ h. refl)

-- The chair that a record is timed by: the record was made in this gig, and not recalled.
abbrev pub IsTimedBy : List Chair → String → OutputRecord → Chair → Type 0
IsTimedBy chairs gig r producer =
    (role : String) × IsFrom role r
    × (r.gig_id ≡ gig)
    × (r.is_reused ≡ false)
    × IsSeat role producer chairs

pub producer_of-IsTimedBy :
    (chairs : List Chair) (gig : String) (r : OutputRecord) (producer : Chair)
    → (producer_of chairs gig r ≡ some producer) ↔ IsTimedBy chairs gig r producer
unfolding producer_of lookup
producer_of-IsTimedBy chairs gig r producer = elim (Option-cases r.from_role) [
  | inl e ↦ rw e (λ h. none-some h, λ t. none-some t.1)
  | inr (role, e) ↦
      let (seat, seated) = lookup-chair_by_role role producer chairs [] in
      let (gig_is, is_gig) = both_tell (eq_iff r.gig_id gig) (not-reused r.is_reused) in
      elim (Bool-cases (r.gig_id == gig && not r.is_reused)) [
        | inl t ↦
            rw (e, t)
              (
                λ h.
                    let (g, u) = gig_is t in
                    (role, refl, g, u, elim (seat h) [ inl s ↦ s | inr (_, l) ↦ none-some l ]),
                λ k.
                    seated
                      (inl (subst (λ n. IsSeat n producer chairs) (some-eq_some (sym k.1)) k.4)),
              )
        | inr t ↦ rw (e, t) (λ h. none-some h, λ k. true-false (sym (is_gig (k.2, k.3)) ∙ t))
      ]
]
