-- ===== src/Song/Polyphony.antt =====
-- src/polyphony.ts: voices that sound together, the chord of each phase, and its density. A `Map` is a
-- dictionary, where the voices of one slug share an entry.
use coltrane.Base.{
  ℕ, max, String, Option, none, some, List, [], ◌∷◌, ◌++◌, eqb, if◌then◌else◌, ◌==◌, length, find,
  includes, Dict, put, map,
}
use coltrane.Song.Circle.{Key, circle_of_fifths_distance}
use coltrane.Song.Paths.{PhaseStep, ModulationPath}

pub record Voice : Type 0 where
  pub agent_slug : String
  pub path : ModulationPath

pub record Pair : Type 0 where
  pub voice_a : String
  pub voice_b : String
  pub distance : ℕ

pub record ChordAtPhase : Type 0 where
  pub phase : String
  pub voices : Dict Key
  pub pairwise : List Pair

pub record Polyphony : Type 0 where
  pub voices : List Voice
  pub chords : List ChordAtPhase

-- The phases in order of first occurrence: the phases of one voice, then of all.
unfoldable pub see_steps : List PhaseStep → List String → List String
see_steps [] order = order
see_steps (s ∷ steps) order =
    see_steps steps (if includes s.phase order then order else order ++ s.phase ∷ [])

unfoldable pub see_voices : List Voice → List String → List String
unfolding see_steps
see_voices [] order = order
see_voices (v ∷ voices) order = see_voices voices (see_steps v.path.steps order)

abbrev pub sound : String → Option PhaseStep → Dict Key → Dict Key
sound slug (some step) playing = put slug step.key playing
sound slug none playing = playing

-- The voices that play at a phase
unfoldable pub voices_at : String → List Voice → Dict Key → Dict Key
voices_at phase [] playing = playing
voices_at phase (v ∷ voices) playing =
    voices_at phase voices (sound v.agent_slug (find (λ s. s.phase == phase) v.path.steps) playing)

-- The pairs of one voice with those after it, and of all voices.
unfoldable pub pairs_with : String → Key → Dict Key → List Pair
pairs_with a k [] = []
pairs_with a k ((b, l) ∷ more) =
    record { voice_a = a; voice_b = b; distance = circle_of_fifths_distance k l }
    ∷ pairs_with a k more

unfoldable pub pairwise : Dict Key → List Pair
unfolding pairs_with
pairwise [] = []
pairwise ((a, k) ∷ more) = pairs_with a k more ++ pairwise more

unfoldable pub chord_at : List Voice → String → ChordAtPhase
unfolding voices_at pairwise
chord_at voices phase =
    let playing = voices_at phase voices [] in
    record { phase = phase; voices = playing; pairwise = pairwise playing }

-- `none` is the `PolyphonyError`.
unfoldable pub compose_voices : List Voice → Option Polyphony
unfolding see_voices chord_at
compose_voices [] = none
compose_voices voices =
    some (record { voices = voices; chords = map (chord_at voices) (see_voices voices []) })

abbrev chord_of : Polyphony → String → Option ChordAtPhase
chord_of poly phase = find (λ c. c.phase == phase) poly.chords

abbrev size_of : Option ChordAtPhase → ℕ
size_of (some c) = length c.voices
size_of none = 0

abbrev voice_count_at_phase : Polyphony → String → ℕ
voice_count_at_phase poly phase = size_of (chord_of poly phase)

data TonicDensity : Type 0 where
  silence monotonic bitonic tritonic tetratonic pentatonic hexatonic polyphonic : TonicDensity

abbrev density_of : ℕ → TonicDensity
density_of n =
    if eqb n 0
    then silence
    else if eqb n 1
    then monotonic
    else if eqb n 2
    then bitonic
    else if eqb n 3
    then tritonic
    else if eqb n 4
    then tetratonic
    else if eqb n 5
    then pentatonic
    else if eqb n 6
    then hexatonic
    else polyphonic

abbrev tonic_density : Polyphony → String → TonicDensity
tonic_density poly phase = density_of (voice_count_at_phase poly phase)

unfoldable density_profile : Polyphony → List (String × TonicDensity)
density_profile poly = map (λ c. (c.phase, tonic_density poly c.phase)) poly.chords

unfoldable pub largest : List Pair → ℕ
largest [] = 0
largest (p ∷ ps) = max p.distance (largest ps)

-- The largest distance, or 0 where no pair sounds.
abbrev pub dissonance_of : Option ChordAtPhase → ℕ
dissonance_of (some c) = largest c.pairwise
dissonance_of none = 0

unfoldable pub max_dissonance_at_phase : Polyphony → String → ℕ
unfolding largest
max_dissonance_at_phase poly phase = dissonance_of (chord_of poly phase)
