-- ===== src/Composition/Accepted.antt =====
-- What a standard that src/composition.ts composes is known to be.
use coltrane.Base.{String, ◌≡◌, refl, Bool, true, false, none, some, List, [], ◌∷◌, All, keys}
use coltrane.Composition.Syntax.{
  StandardDef, Check, unless, and_then, each_passes, all_chairs, CompositionError,
}
use coltrane.Composition.Chairs.{phases_check}
use coltrane.Composition.Graph.{
  adjacency, Visit, visited, cyclic, exhausted, search, cycle_check, edges_check,
}
use coltrane.Composition.Order.{IsOrder, Within, search-IsOrder}
use coltrane.Composition.Flow.{input_check}
use coltrane.Composition.Compose.{standard_check, composed, composed_or, compose_standard}

pub and_then-none : (a b : Check) → and_then a b ≡ none → (a ≡ none) × (b ≡ none)
unfolding and_then
and_then-none none b h = (refl, h)
and_then-none (some e) b h = cc

pub each_passes-none {ℓ} :
    {A : Type ℓ} (f : A → Check) (xs : List A) → each_passes f xs ≡ none → All (λ x. f x ≡ none) xs
unfolding each_passes
each_passes-none f [] h = tt
each_passes-none f (x ∷ xs) h =
    let (one, rest) = and_then-none _ _ h in (one, each_passes-none f xs rest)

pub unless-none : (b : Bool) (e : CompositionError) → unless b e ≡ none → b ≡ true
unless-none true e h = refl
unless-none false e h = cc

pub All-map {ℓ κ λ'} :
    {A : Type ℓ} {P : A → Type κ} {Q : A → Type λ'}
    → ((x : A) → P x → Q x)
    → (xs : List A) → All P xs
    → All Q xs
All-map f [] h = tt
All-map f (x ∷ xs) (h, hs) = (f x h, All-map f xs hs)

-- The checks that a composed standard has passed
pub record IsChecked (def : StandardDef) : Type 0 where
  pub phases : phases_check def.agents [] def.phases ≡ none
  pub edges : edges_check def.phases 0 def.phases ≡ none
  pub cycles : cycle_check (search (adjacency (all_chairs def.phases))) ≡ none
  pub inputs :
      each_passes (input_check def.input_types (all_chairs def.phases)) (all_chairs def.phases)
      ≡ none

checked_if : (def s : StandardDef) (c : Check) → composed_or def c ≡ composed s → c ≡ none
checked_if def s none h = refl
checked_if def s (some e) h = cc

pub compose_standard-IsChecked :
    (def s : StandardDef) → compose_standard def ≡ composed s → IsChecked def
unfolding compose_standard standard_check
compose_standard-IsChecked def s h =
    let (one, h1) = and_then-none _ _ (checked_if def s (standard_check def) h) in
    let (two, h2) = and_then-none _ _ h1 in
    let (three, h3) = and_then-none _ _ h2 in
    let (four, h4) = and_then-none _ _ h3 in
    record { phases = one; edges = two; cycles = three; inputs = four }

visited_if : (v : Visit) → cycle_check v ≡ none → (black : List String) × (v ≡ visited black)
visited_if (visited black) h = (black, refl)
visited_if (cyclic r d) h = cc
visited_if exhausted h = cc

-- A standard that is composed has no cycle of dependencies: its roles can be listed so that each stands
-- before all the roles that it depends on.
pub compose_standard-IsOrder :
    (def s : StandardDef)
    → compose_standard def ≡ composed s
    → (order : List String) × IsOrder (adjacency (all_chairs def.phases)) order
      × Within (keys (adjacency (all_chairs def.phases))) order
compose_standard-IsOrder def s h =
    let c = compose_standard-IsChecked def s h in
    let (black, found) = visited_if _ c.cycles in
    let (ordered, all) = search-IsOrder (adjacency (all_chairs def.phases)) black found in
    (black, ordered, all)
