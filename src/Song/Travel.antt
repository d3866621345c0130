-- ===== src/Song/Travel.antt =====
-- The readings of src/modulation_path.ts against each other, and against the distance.
use coltrane.Base.{
  true-false, ◌*◌, ◌≤◌, ◌≡◌, refl, true, false, not, some, List, [], ◌∷◌, length, arith, ◌↔◌, all,
  keep, some-eq_some, Bool-cases, inl, inr, sym, leb, subst,
}
use coltrane.Song.Circle.{
  same_key, circle_of_fifths_distance, classify_modulation, modulation_threshold,
}
use coltrane.Song.Distances.{distance_bound, distance_triangle, distance_self}
use coltrane.Song.Paths.{
  PhaseStep, PathTransition, ModulationPath, transition, transitions_from, last_key, build_path,
  is_jarring, is_lawful, jarring_count, travel, total_travel,
}

keep-all :
    (ts : List PathTransition)
    → (all (λ t. not (is_jarring t)) ts ≡ true) ↔ (length (keep is_jarring ts) ≡ 0)
unfolding all keep
keep-all [] = (λ h. refl, λ h. refl)
keep-all (t ∷ ts) =
    let (there, back) = keep-all ts in (λ h. ground (arith, there), λ h. ground (arith, back))

-- A path is lawful exactly if its count of jarring transitions is zero.
is_lawful-jarring_count :
    (path : ModulationPath) → (is_lawful path ≡ true) ↔ (jarring_count path ≡ 0)
unfolding is_lawful jarring_count
is_lawful-jarring_count path = keep-all path.transitions

travel_covers :
    (a : PhaseStep) (steps : List PhaseStep)
    → circle_of_fifths_distance a.key (last_key a steps) ≤ travel (transitions_from a steps)
unfolding last_key travel transitions_from
travel_covers a [] = omega (arith, distance_self a.key)
travel_covers a (b ∷ steps) =
    omega (arith, distance_triangle a.key b.key (last_key b steps), travel_covers b steps)

travel_bound :
    (a : PhaseStep) (steps : List PhaseStep) → travel (transitions_from a steps) ≤ length steps * 6
unfolding travel transitions_from
travel_bound a [] = omega arith
travel_bound a (b ∷ steps) = omega (arith, distance_bound a.key b.key, travel_bound b steps)

-- A modulation that is not jarring moves by at most one step.
lawful_step :
    (a b : PhaseStep)
    → is_jarring (transition a b) ≡ false
    → circle_of_fifths_distance a.key b.key ≤ 1
unfolding classify_modulation
lawful_step a b h = elim (Bool-cases (same_key a.key b.key)) [
  | inl s ↦ ground (arith, s)
  | inr s ↦ elim (Bool-cases (leb (circle_of_fifths_distance a.key b.key) modulation_threshold)) [
    | inl l ↦ ground (arith, l)
    | inr l ↦ true-false (rw (s, l) at h)
  ]
]

lawful_travel :
    (a : PhaseStep) (steps : List PhaseStep)
    → all (λ t. not (is_jarring t)) (transitions_from a steps) ≡ true
    → travel (transitions_from a steps) ≤ length steps
unfolding all travel transitions_from
lawful_travel a [] h = omega arith
lawful_travel a (b ∷ steps) h = elim (Bool-cases (is_jarring (transition a b))) [
  | inl j ↦ ground (arith, j, h)
  | inr j ↦ omega (arith, lawful_step a b j, lawful_travel b steps (ground (arith, j, h)))
]

length-transitions_from :
    (a : PhaseStep) (steps : List PhaseStep) → length (transitions_from a steps) ≡ length steps
unfolding transitions_from
length-transitions_from a [] = refl
length-transitions_from a (b ∷ steps) = omega (arith, length-transitions_from b steps)

-- The total travel of a path lies between the distance from its first key to its last and six for
-- each transition.
record IsTravelled (path : ModulationPath) : Type 0 where
  pub at_least : circle_of_fifths_distance path.starts_in path.ends_in ≤ total_travel path
  pub at_most : total_travel path ≤ length path.transitions * 6

-- On the path that `buildPath` makes, the total travel is at least the distance between the first
-- key and the last, and at most six for each transition.
build_path-IsTravelled :
    (steps : List PhaseStep) (path : ModulationPath)
    → build_path steps ≡ some path
    → IsTravelled path
unfolding build_path total_travel
build_path-IsTravelled [] path h = cc
build_path-IsTravelled (a ∷ steps) path h = subst IsTravelled (some-eq_some h) (record {
  at_least = travel_covers a steps;
  at_most = rw (length-transitions_from a steps) (travel_bound a steps);
})

-- A lawful path cannot hurry: it has at least as many transitions as the distance between its first
-- key and its last.
lawful_path_bound :
    (steps : List PhaseStep) (path : ModulationPath)
    → build_path steps ≡ some path
    → is_lawful path ≡ true
    → circle_of_fifths_distance path.starts_in path.ends_in ≤ length path.transitions
unfolding build_path is_lawful
lawful_path_bound [] path h l = cc
lawful_path_bound (a ∷ steps) path h l =
    subst (λ p. circle_of_fifths_distance p.starts_in p.ends_in ≤ length p.transitions)
      (some-eq_some h)
      (omega (
        arith,
        travel_covers a steps,
        lawful_travel a steps (
            subst (λ p. all (λ t. not (is_jarring t)) p.transitions ≡ true) (sym (some-eq_some h))
              l),
        length-transitions_from a steps,
      ))
