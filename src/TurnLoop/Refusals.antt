-- ===== src/TurnLoop/Refusals.antt =====
-- When src/turn_loop.ts refuses a turn whose tools a model could not tell apart.
use mathlib.Core.List.{append-nil, append_assoc}
use coltrane.Base.{
  String, Bool, true, false, ◌≡◌, refl, sym, ap, ◌∙◌, ◌↔◌, subst, some, List, [], ◌∷◌, ◌++◌, map,
  keep, any, includes, Unique, Dict, keys, length, length-append, ltb, All, ◌==◌, eq_iff, eq_refl,
  arith, Bool-cases, inl, inr, true-false, cons-nil, Unique-append,
}
use coltrane.TurnLoop.Messages.{
  ToolDef, TurnMessage, Outcome, returned, raised, Money, TurnLoopOptions, Turn,
}
use coltrane.TurnLoop.Hands.{listed_tools, add_name, by_wire, collisions}
use coltrane.TurnLoop.Rounds.{turn_after, start, run_turn}

-- Some wire name has several tools.
abbrev crowded : Dict (List String) → Bool
crowded m = any (λ e. ltb 1 (length e.1)) m

abbrev IsSingle : Dict (List String) → Type 0
IsSingle m = All (λ e. length e.1 ≡ 1) m

keep-crowded :
    (m : Dict (List String)) → (keep (λ e. ltb 1 (length e.1)) m ≡ []) ↔ (crowded m ≡ false)
unfolding keep any
keep-crowded [] = (λ h. refl, λ h. refl)
keep-crowded ((k, names) ∷ m) = elim (Bool-cases (ltb 1 (length names))) [
  | inl e ↦ rw e (λ h. cons-nil h, λ h. true-false h)
  | inr e ↦ rw e (keep-crowded m)
]

add_name-crowded :
    (w name : String) (m : Dict (List String))
    → crowded m ≡ true
    → crowded (add_name w name m) ≡ true
unfolding add_name any
add_name-crowded w name [] h = cc
add_name-crowded w name ((k, names) ∷ m) h =
    ground (arith, h, add_name-crowded w name m, length-append names (name ∷ []))

by_wire-crowded :
    (wire : String → String) (ts : List ToolDef) (m : Dict (List String))
    → crowded m ≡ true
    → crowded (by_wire wire m ts) ≡ true
unfolding by_wire
by_wire-crowded wire [] m h = h
by_wire-crowded wire (t ∷ ts) m h =
    by_wire-crowded wire ts _ (add_name-crowded (wire t.name) t.name m h)

single-crowded : (m : Dict (List String)) → IsSingle m → crowded m ≡ false
unfolding any
single-crowded [] s = refl
single-crowded ((k, names) ∷ m) s = ground (arith, s.0, single-crowded m s.1)

add_again-crowded :
    (w name : String) (m : Dict (List String))
    → IsSingle m
    → includes w (keys m) ≡ true
    → crowded (add_name w name m) ≡ true
unfolding add_name any includes keys
add_again-crowded w name [] s h = cc
add_again-crowded w name ((k, names) ∷ m) s h =
    ground (arith, h, s.0, add_again-crowded w name m s.1, length-append names (name ∷ []))

add_new-IsSingle :
    (w name : String) (m : Dict (List String))
    → IsSingle m
    → includes w (keys m) ≡ false
    → IsSingle (add_name w name m) × (keys (add_name w name m) ≡ keys m ++ w ∷ [])
unfolding add_name includes keys
add_new-IsSingle w name [] s h = ((refl, tt), refl)
add_new-IsSingle w name ((k, names) ∷ m) s h = elim (Bool-cases (k == w)) [
  | inl e ↦ ground (arith, h)
  | inr e ↦
      let more = add_new-IsSingle w name m s.1 (ground (arith, h)) in
      rw e ((s.0, more.0), λ i. k ∷ more.1 i)
]

included_after : (w : String) (xs ys : List String) → includes w (xs ++ w ∷ ys) ≡ true
unfolding includes
included_after w [] ys = ground (arith, eq_refl w)
included_after w (x ∷ xs) ys = ground (arith, included_after w xs ys)

twice-Unique {ℓ} :
    {B : Type ℓ} (w : String) (xs ys : List String)
    → includes w xs ≡ true
    → Unique (xs ++ w ∷ ys)
    → B
unfolding includes Unique
twice-Unique w [] ys h u = cc
twice-Unique w (x ∷ xs) ys h u = elim (Bool-cases (x == w)) [
  | inl e ↦ true-false (
      sym (included_after w xs ys)
      ∙ subst (λ v. includes v (xs ++ w ∷ ys) ≡ false) ((eq_iff x w).0 e) u.0)
  | inr e ↦ twice-Unique w xs ys (ground (arith, h)) u.1
]

by_wire-Unique :
    (wire : String → String) (ts : List ToolDef) (m : Dict (List String))
    → IsSingle m
    → Unique (keys m)
    → (crowded (by_wire wire m ts) ≡ false) ↔ Unique (keys m ++ map (λ t. wire t.name) ts)
unfolding by_wire
by_wire-Unique wire [] m s u =
    (λ h. subst Unique (sym (append-nil (keys m))) u, λ v. single-crowded m s)
by_wire-Unique wire (t ∷ ts) m s u = elim (Bool-cases (includes (wire t.name) (keys m))) [
  | inl e ↦ (
    λ h. true-false (
        sym (
          by_wire-crowded wire ts (add_name (wire t.name) t.name m)
            (add_again-crowded (wire t.name) t.name m s e))
        ∙ h),
    λ v. twice-Unique (wire t.name) (keys m) _ e v,
  )
  | inr e ↦
      let new = add_new-IsSingle (wire t.name) t.name m s e in
      let later =
        by_wire-Unique wire ts (add_name (wire t.name) t.name m) new.0
          (subst Unique (sym new.1) (Unique-append (wire t.name) (keys m) e u)) in
      let same =
        ap (λ ks. ks ++ map (λ d. wire d.name) ts) new.1
        ∙ append_assoc (keys m) (wire t.name ∷ []) (map (λ d. wire d.name) ts) in
      (λ h. subst Unique same (later.0 h), λ v. later.1 (subst Unique (sym same) v))
]

-- A turn with an encoding of names for the wire is refused for a collision exactly when the names of its
-- offered tools are not all different on the wire.
collisions_exact :
    (wire : String → String) (offered : List ToolDef)
    → (collisions (some wire) offered ≡ []) ↔ Unique (map (λ t. wire t.name) offered)
unfolding collisions Unique keys
collisions_exact wire offered =
    let kept = keep-crowded (by_wire wire [] offered) in
    let exact = by_wire-Unique wire offered [] tt tt in
    (λ h. exact.0 (kept.0 h), λ u. kept.1 (exact.1 u))

raised-eq_raised {ℓ} :
    {A : Type ℓ} {s t : String} {x : Outcome A} → x ≡ raised s → x ≡ raised t → s ≡ t
raised-eq_raised h k = cc

module _ {W USD : Type 0} (money : Money USD) (opts : TurnLoopOptions W USD) where
  turn_after-raised :
      (t : Turn W USD) (outcome : Outcome (List ToolDef)) (why : String)
      → (turn_after money opts t outcome ≡ raised why) ↔ (outcome ≡ raised why)
  turn_after-raised t (raised s) why =
      (λ h. ap raised (raised-eq_raised refl h), λ h. ap raised (raised-eq_raised refl h))
  turn_after-raised t (returned listed) why = (λ h. cc, λ h. cc)

  -- A turn throws exactly when the listing of the tools throws, and then what it throws: what the model's
  -- port and the tools throw is caught.
  run_turn_raises :
      (messages : List TurnMessage) (w : W) (why : String)
      → (run_turn money opts messages w ≡ raised why) ↔ ((listed_tools opts.tools w).1 ≡ raised why)
  unfolding run_turn
  run_turn_raises messages w why =
      turn_after-raised (start money opts messages (listed_tools opts.tools w).0)
        (listed_tools opts.tools w).1 why
