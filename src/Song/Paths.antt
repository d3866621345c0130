-- ===== src/Song/Paths.antt =====
-- src/modulation_path.ts: the steps of a song, the transitions between them, and what is read of
-- them.
use coltrane.Base.{
  ℕ, ◌+◌, String, Bool, true, false, not, Option, none, some, List, [], ◌∷◌, length, all, keep,
}
use coltrane.Song.Circle.{
  Key, same_key, circle_of_fifths_distance, classify_modulation, modulation_threshold,
  ModulationKind, jarring,
}

pub record PhaseStep : Type 0 where
  pub phase : String
  pub key : Key

pub record PathTransition : Type 0 where
  pub from_phase : String
  pub to_phase : String
  pub from_key : Key
  pub to_key : Key
  pub distance : ℕ
  pub kind : ModulationKind

pub record ModulationPath : Type 0 where
  pub steps : List PhaseStep
  pub transitions : List PathTransition
  pub starts_in : Key
  pub ends_in : Key

abbrev pub transition : PhaseStep → PhaseStep → PathTransition
transition a b = record {
  from_phase = a.phase;
  to_phase = b.phase;
  from_key = a.key;
  to_key = b.key;
  distance = circle_of_fifths_distance a.key b.key;
  kind = classify_modulation a.key b.key modulation_threshold;
}

-- The loop of `buildPath`, from the step before.
unfoldable pub transitions_from : PhaseStep → List PhaseStep → List PathTransition
transitions_from a [] = []
transitions_from a (b ∷ steps) = transition a b ∷ transitions_from b steps

unfoldable pub last_key : PhaseStep → List PhaseStep → Key
last_key a [] = a.key
last_key a (b ∷ steps) = last_key b steps

-- `none` is the `ModulationPathError`.
unfoldable pub build_path : List PhaseStep → Option ModulationPath
build_path [] = none
build_path (a ∷ steps) = some (record {
  steps = a ∷ steps;
  transitions = transitions_from a steps;
  starts_in = a.key;
  ends_in = last_key a steps;
})

abbrev pub is_jarring : PathTransition → Bool
is_jarring t = elim t.kind [ jarring ↦ true | _ ↦ false ]

unfoldable pub is_lawful : ModulationPath → Bool
is_lawful path = all (λ t. not (is_jarring t)) path.transitions

unfoldable pub jarring_count : ModulationPath → ℕ
jarring_count path = length (keep is_jarring path.transitions)

-- The sum of the distances
unfoldable pub travel : List PathTransition → ℕ
travel [] = 0
travel (t ∷ ts) = t.distance + travel ts

unfoldable pub total_travel : ModulationPath → ℕ
unfolding travel
total_travel path = travel path.transitions

unfoldable returns_home : ModulationPath → Bool
returns_home path = same_key path.starts_in path.ends_in
