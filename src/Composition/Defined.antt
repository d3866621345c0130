-- ===== src/Composition/Defined.antt =====
-- What `defineAgent` of src/composition.ts lets through.
use coltrane.Base.{
  ℕ, suc, String, Bool, true, false, ◌≡◌, ◌≢◌, refl, sym, ◌∙◌, ◌↔◌, Option, none, some, List, [],
  ◌∷◌, ◌++◌, any, length, arith, inl, inr, none-some, some-eq_some, ◌⊎◌,
}
use coltrane.Composition.Syntax.{Primitive, sense, interpret, judge, plan, create, verify}
use coltrane.Composition.Agents.{
  AgentDef, AgentError, AgentCheck, verify_without_target, no_identity, no_method, or_then, demand,
  reasons, says, position_check, positions_check, primitives_check, disposition_check,
  constraints_check, agent_def_check,
}

or_then-none : (a b : AgentCheck) → (or_then a b ≡ none) ↔ ((a ≡ none) × (b ≡ none))
unfolding or_then
or_then-none none b = (λ h. (refl, h), λ h. h.1)
or_then-none (some e) b = (λ h. none-some (sym h), λ h. none-some (sym h.0))

demand-none : (b : Bool) (e : AgentError) → (demand b e ≡ none) ↔ (b ≡ true)
demand-none true e = (λ h. refl, λ h. refl)
demand-none false e = (λ h. none-some (sym h), λ h. cc)

-- Each CREATE has an INTERPRET or a PLAN somewhere before it, among the primitives that come after these.
unfoldable Reasoned : List Primitive → List Primitive → Type 0
Reasoned upstream [] = Unit
Reasoned upstream (p ∷ ps) =
    (p ≡ create → any reasons upstream ≡ true) × Reasoned (upstream ++ p ∷ []) ps

position_check-none :
    (u : Primitive) (us : List Primitive) (i : ℕ) (p : Primitive)
    → (position_check (u ∷ us) i p ≡ none) ↔ (p ≡ create → any reasons (u ∷ us) ≡ true)
position_check-none u us i create =
    (λ h e. (demand-none _ _).0 h, λ h. (demand-none _ _).1 (h refl))
position_check-none u us i verify = (λ h e. cc, λ h. (demand-none _ _).1 (ground arith))
position_check-none u us i sense = (λ h e. cc, λ h. refl)
position_check-none u us i interpret = (λ h e. cc, λ h. refl)
position_check-none u us i judge = (λ h e. cc, λ h. refl)
position_check-none u us i plan = (λ h e. cc, λ h. refl)

positions_check-none :
    (u : Primitive) (us : List Primitive) (i : ℕ) (ps : List Primitive)
    → (positions_check (u ∷ us) i ps ≡ none) ↔ Reasoned (u ∷ us) ps
unfolding positions_check Reasoned
positions_check-none u us i [] = (λ h. tt, λ h. refl)
positions_check-none u us i (p ∷ ps) =
    let both =
      or_then-none (position_check (u ∷ us) i p) (positions_check (u ∷ us ++ p ∷ []) (suc i) ps) in
    let one = position_check-none u us i p in
    let more = positions_check-none u (us ++ p ∷ []) (suc i) ps in
    (λ h. let (a, b) = both.0 h in (one.0 a, more.0 b), λ h. both.1 (one.1 h.0, more.1 h.1))

or_then-some :
    (a b : AgentCheck) {e : AgentError} → or_then a b ≡ some e → (a ≡ some e) ⊎ (b ≡ some e)
unfolding or_then
or_then-some none b h = inr h
or_then-some (some e) b h = inl h

demand-some : (b : Bool) (e : AgentError) {f : AgentError} → demand b e ≡ some f → e ≡ f
demand-some true e h = none-some h
demand-some false e h = some-eq_some h

position_check-verify :
    (u : Primitive) (us : List Primitive) (i j : ℕ) (p : Primitive)
    → position_check (u ∷ us) i p ≢ some (verify_without_target j)
position_check-verify u us i j create h = let same = demand-some _ _ h in cc
position_check-verify u us i j verify h =
    none-some (sym ((demand-none _ (verify_without_target i)).1 (ground arith)) ∙ h)
position_check-verify u us i j sense h = none-some h
position_check-verify u us i j interpret h = none-some h
position_check-verify u us i j judge h = none-some h
position_check-verify u us i j plan h = none-some h

positions_check-verify :
    (u : Primitive) (us : List Primitive) (i j : ℕ) (ps : List Primitive)
    → positions_check (u ∷ us) i ps ≢ some (verify_without_target j)
unfolding positions_check
positions_check-verify u us i j [] h = none-some h
positions_check-verify u us i j (p ∷ ps) h = elim (or_then-some (position_check (u ∷ us) i p) _ h) [
  | inl e ↦ position_check-verify u us i j p e
  | inr e ↦ positions_check-verify u (us ++ p ∷ []) (suc i) j ps e
]

-- A VERIFY is never refused for want of a target: the loop begins at the second primitive, so that there is
-- always something before it.
primitives_check-verify :
    (primitives : Option (List Primitive)) (j : ℕ)
    → primitives_check primitives ≢ some (verify_without_target j)
unfolding primitives_check
primitives_check-verify none j h = let same = some-eq_some h in cc
primitives_check-verify (some []) j h = let same = some-eq_some h in cc
primitives_check-verify (some (p ∷ ps)) j h = positions_check-verify p [] 1 j ps h

abbrev IsReasoned : Option (List Primitive) → Type 0
IsReasoned none = ⊥
IsReasoned (some []) = ⊥
IsReasoned (some (p ∷ ps)) = Reasoned (p ∷ []) ps

abbrev IsPair : Option (List String) → Type 0
IsPair none = ⊥
IsPair (some rs) = length rs ≡ 2

abbrev IsGiven : Option (List String) → Type 0
IsGiven none = ⊥
IsGiven (some cs) = Unit

primitives_check-none :
    (primitives : Option (List Primitive))
    → (primitives_check primitives ≡ none) ↔ IsReasoned primitives
unfolding primitives_check
primitives_check-none none = (λ h. none-some (sym h), λ h. absurd h)
primitives_check-none (some []) = (λ h. none-some (sym h), λ h. absurd h)
primitives_check-none (some (p ∷ ps)) = positions_check-none p [] 1 ps

disposition_check-none :
    (roles : Option (List String)) → (disposition_check roles ≡ none) ↔ IsPair roles
disposition_check-none none = (λ h. none-some (sym h), λ h. absurd h)
disposition_check-none (some []) = (λ h. none-some (sym h), λ h. absurd (omega (arith, h)))
disposition_check-none (some (r ∷ rs)) = (
  λ h. let two = (demand-none _ _).0 h in ground (arith, two),
  λ h. (demand-none _ _).1 (ground (arith, h)),
)

constraints_check-none :
    (constraints : Option (List String))
    → (constraints_check constraints ≡ none) ↔ IsGiven constraints
constraints_check-none none = (λ h. none-some (sym h), λ h. absurd h)
constraints_check-none (some cs) = (λ h. tt, λ h. refl)

-- A definition of an agent passes the checks before the schema exactly when it lists primitives, of which
-- each CREATE but the first has an INTERPRET or a PLAN before it, says who the agent is and how it works, has
-- a disposition of two roles, and lists constraints.
agent_def_check-none :
    (def : AgentDef)
    → (agent_def_check def ≡ none) ↔ (
        IsReasoned def.primitives
        × (says def.identity ≡ true)
        × (says def.method ≡ true)
        × IsPair def.behavioral_primitives
        × IsGiven def.constraints)
unfolding agent_def_check
agent_def_check-none def =
    let first = or_then-none (primitives_check def.primitives) _ in
    let second = or_then-none (demand (says def.identity) no_identity) _ in
    let third = or_then-none (demand (says def.method) no_method) _ in
    let fourth = or_then-none (disposition_check def.behavioral_primitives) _ in
    let reasoned = primitives_check-none def.primitives in
    let pair = disposition_check-none def.behavioral_primitives in
    let given = constraints_check-none def.constraints in
    (
      λ h.
          let (a, h1) = first.0 h in
          let (b, h2) = second.0 h1 in
          let (c, h3) = third.0 h2 in
          let (d, e) = fourth.0 h3 in
          (reasoned.0 a, (demand-none _ _).0 b, (demand-none _ _).0 c, pair.0 d, given.0 e),
      λ (a, b, c, d, e). first.1 (
        reasoned.1 a,
        second.1 (
          (demand-none _ _).1 b,
          third.1 ((demand-none _ _).1 c, fourth.1 (pair.1 d, given.1 e)),
        ),
      ),
    )
