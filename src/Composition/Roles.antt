-- ===== src/Composition/Roles.antt =====
-- The roles of a standard that src/composition.ts composes, and the agents that fill them.
use coltrane.GigConformance.{core_types}
use coltrane.Base.{
  any, String, ◌≡◌, refl, sym, ap, ◌∙◌, ◌⊎◌, inl, inr, Bool, true, false, not, ◌||◌, Option, none,
  some, List, [], ◌∷◌, ◌++◌, includes, Unique, All, length, ltb, Bool-cases, eq_iff, ◌==◌,
  if◌then◌else◌, true-false, head_included, tail_included,
}
use coltrane.Composition.Syntax.{
  Agent, Chair, PhaseDef, StandardDef, Check, all_chairs, agent_by_slug,
}
use coltrane.Composition.Chairs.{
  phases_check, chairs_check, chair_check, agent_check, declared_skills, seen_after, is_skill_chair,
  is_human_chair,
}
use coltrane.Composition.Compose.{composed, compose_standard}
use coltrane.Composition.Accepted.{
  and_then-none, each_passes-none, unless-none, All-map, compose_standard-IsChecked,
}

-- Names that come one after the other, none of them seen before
abbrev FreshRun : List String → List String → Type 0
FreshRun seen [] = Unit
FreshRun seen (r ∷ rs) = (includes r seen ≡ false) × FreshRun (r ∷ seen) rs

FreshRun-Unique :
    (seen rs : List String)
    → FreshRun seen rs
    → Unique rs × ((s : String) → includes s seen ≡ true → includes s rs ≡ false)
unfolding Unique includes
FreshRun-Unique seen [] h = (tt, λ s i. refl)
FreshRun-Unique seen (r ∷ rs) (n, h) =
    let (unique, apart) = FreshRun-Unique (r ∷ seen) rs h in
    (
      (apart r (head_included r seen), unique),
      λ s i. elim (Bool-cases (r == s)) [
        | inl e ↦ true-false (sym i ∙ (ap (λ t. includes t seen) (sym ((eq_iff r s).0 e)) ∙ n))
        | inr e ↦ rw e (apart s (tail_included s r seen i))
      ],
    )

pub roles : List Chair → List String
roles [] = []
roles (ch ∷ chairs) = ch.role ∷ roles chairs

not-true : (b : Bool) → not b ≡ true → b ≡ false
not-true true h = sym h
not-true false h = refl

-- The chairs of a phase pass one by one, each with a new role.
chairs_check-none :
    (agents : List Agent) (within seen : List String) (chairs more : List Chair)
    → chairs_check agents within seen chairs ≡ none
    → FreshRun (seen_after seen chairs) (roles more)
    → All (λ ch. chair_check agents ch ≡ none) more
    → FreshRun seen (roles (chairs ++ more))
      × All (λ ch. chair_check agents ch ≡ none) (chairs ++ more)
unfolding chairs_check seen_after roles
chairs_check-none agents within seen [] more h f a = (f, a)
chairs_check-none agents within seen (ch ∷ chairs) more h f a =
    let (_, h1) = and_then-none _ _ h in
    let (new, h2) = and_then-none _ _ h1 in
    let (passed, h3) = and_then-none _ _ h2 in
    let (fresh, all) =
      chairs_check-none agents (ch.role ∷ within) (ch.role ∷ seen) chairs more h3 f a in
    ((not-true _ (unless-none _ _ new), fresh), (passed, all))

phases_check-none :
    (agents : List Agent) (seen : List String) (phases : List PhaseDef)
    → phases_check agents seen phases ≡ none
    → FreshRun seen (roles (all_chairs phases))
      × All (λ ch. chair_check agents ch ≡ none) (all_chairs phases)
unfolding phases_check all_chairs roles
phases_check-none agents seen [] h = (tt, tt)
phases_check-none agents seen (p ∷ phases) h =
    let (_, h1) = and_then-none _ _ h in
    let (chairs, rest) = and_then-none _ _ h1 in
    let (fresh, all) = phases_check-none agents (seen_after seen p.chairs) phases rest in
    chairs_check-none agents [] seen p.chairs (all_chairs phases) chairs fresh all

-- A type that an agent declares among its inputs, or any type at all when it declares a core type there
abbrev pub MayTake : Agent → String → Type 0
MayTake ag fed =
    (includes fed ag.input_types ≡ true)
    ⊎ ((core : String) × (includes core ag.input_types ≡ true) × (includes core core_types ≡ true))

declared-MayTake :
    (fed : String) (types : List String)
    → any (λ t. t == fed || includes t core_types) types ≡ true
    → (includes fed types ≡ true)
      ⊎ ((core : String) × (includes core types ≡ true) × (includes core core_types ≡ true))
unfolding any includes
declared-MayTake fed [] h = cc
declared-MayTake fed (t ∷ types) h = elim (Bool-cases (t == fed)) [
  | inl e ↦ inl (rw e refl)
  | inr e ↦ elim (Bool-cases (includes t core_types)) [
    | inl c ↦ inr (t, head_included t types, c)
    | inr c ↦ elim (declared-MayTake fed types (rw (e, c) at h)) [
      | inl d ↦ inl (tail_included fed t types d)
      | inr (core, d, k) ↦ inr (core, tail_included core t types d, k)
    ]
  ]
]

-- The agent in a chair is known, holds every skill that the chair requires, takes in every type that it
-- cannot do without, and is fed only types that it may take.
abbrev pub IsStaffed : List Agent → Chair → Type 0
IsStaffed agents ch =
    (ag : Agent) × (agent_by_slug ch.agent_slug agents ≡ some ag)
    × All (λ sk. includes sk (declared_skills ag) ≡ true) ch.required_skills
    × All (λ req. includes req ch.input_contract ≡ true) ag.required_inputs
    × All (MayTake ag) ch.input_contract

agent_check-IsStaffed :
    (agents : List Agent) (ch : Chair) (o : Option Agent)
    → agent_by_slug ch.agent_slug agents ≡ o
    → agent_check ch o ≡ none
    → IsStaffed agents ch
unfolding agent_check
agent_check-IsStaffed agents ch none e h = cc
agent_check-IsStaffed agents ch (some ag) e h =
    let (skills, h1) = and_then-none _ _ h in
    let (_, h2) = and_then-none _ _ h1 in
    let (required, h3) = and_then-none _ _ h2 in
    let (declared, _) = and_then-none _ _ h3 in
    (
      ag,
      e,
      All-map (λ sk p. unless-none _ _ p) ch.required_skills
          (each_passes-none _ ch.required_skills skills),
      All-map (λ req p. unless-none _ _ p) ag.required_inputs
          (each_passes-none _ ag.required_inputs required),
      All-map (λ fed p. declared-MayTake fed ag.input_types (unless-none _ _ p)) ch.input_contract
          (each_passes-none _ ch.input_contract declared),
    )

-- A chair is backed by a skill or by a person, or is staffed; and what it marks optional it declares.
abbrev pub IsSeated : List Agent → Chair → Type 0
IsSeated agents ch =
    (((is_skill_chair ch || is_human_chair ch) ≡ true) ⊎ IsStaffed agents ch)
    × (ltb 0 (length ch.output_contract) ≡ true)
    × All (λ o. includes o ch.output_contract ≡ true) ch.optional_outputs
    × All (λ o. includes o ch.input_contract ≡ true) ch.optional_inputs

backed_or_checked :
    (b : Bool) (c : Check) → (if b then none else c) ≡ none → (b ≡ true) ⊎ (c ≡ none)
backed_or_checked true c h = inl refl
backed_or_checked false c h = inr h

chair_check-IsSeated :
    (agents : List Agent) (ch : Chair) → chair_check agents ch ≡ none → IsSeated agents ch
unfolding chair_check
chair_check-IsSeated agents ch h =
    let (_, h1) = and_then-none _ _ h in
    let (_, h2) = and_then-none _ _ h1 in
    let (_, h3) = and_then-none _ _ h2 in
    let (_, h4) = and_then-none _ _ h3 in
    let (agent, h5) = and_then-none _ _ h4 in
    let (outputs, h6) = and_then-none _ _ h5 in
    let (optional, h7) = and_then-none _ _ h6 in
    let (inputs, _) = and_then-none _ _ h7 in
    (
      elim (backed_or_checked (is_skill_chair ch || is_human_chair ch) _ agent) [
        | inl backed ↦ inl backed
        | inr passed ↦ inr (agent_check-IsStaffed agents ch _ refl passed)
      ],
      unless-none _ _ outputs,
      All-map (λ o p. unless-none _ _ p) ch.optional_outputs
          (each_passes-none _ ch.optional_outputs optional),
      All-map (λ o p. unless-none _ _ p) ch.optional_inputs
          (each_passes-none _ ch.optional_inputs inputs),
    )

-- In a standard that is composed no two chairs share a role, in one phase or across phases. Each chair is
-- backed by a skill or a person, or its agent is one of the standard's, holds the required skills, is
-- given the inputs that it cannot do without and is fed only types that it declares among its inputs, unless
-- it declares a core type there, which lets every type pass; each chair promises something, and what it marks optional is in its contracts.
pub compose_standard-IsSeated :
    (def s : StandardDef)
    → compose_standard def ≡ composed s
    → Unique (roles (all_chairs def.phases)) × All (IsSeated def.agents) (all_chairs def.phases)
compose_standard-IsSeated def s h =
    let (fresh, all) =
      phases_check-none def.agents [] def.phases (compose_standard-IsChecked def s h).phases in
    (
      (FreshRun-Unique [] _ fresh).0,
      All-map (λ ch p. chair_check-IsSeated def.agents ch p) (all_chairs def.phases) all,
    )
