-- ===== src/Song/Chords.antt =====
-- The phases and the dissonances of src/polyphony.ts.
use coltrane.Base.{
  All-append, includes-append, Unique, Unique-append, ℕ, ◌≤◌, ◌≡◌, refl, String, Bool, ◌||◌, some,
  List, [], ◌∷◌, ◌++◌, arith, any, includes, find, map, some-eq_some, Bool-cases, inl, inr, subst,
  ◌==◌, eq_iff, All, Dict,
}
use coltrane.Song.Circle.{Key}
use coltrane.Song.Distances.{distance_bound}
use coltrane.Song.Paths.{PhaseStep}
use coltrane.Song.Polyphony.{
  Voice, Pair, Polyphony, see_steps, see_voices, voices_at, pairs_with, pairwise, chord_at,
  compose_voices, largest, max_dissonance_at_phase, dissonance_of,
}

see_steps-Unique :
    (steps : List PhaseStep) (order : List String) → Unique order → Unique (see_steps steps order)
unfolding see_steps
see_steps-Unique [] order u = u
see_steps-Unique (s ∷ steps) order u = elim (Bool-cases (includes s.phase order)) [
  | inl b ↦ rw b (see_steps-Unique steps order u)
  | inr b ↦ rw b (see_steps-Unique steps (order ++ s.phase ∷ []) (Unique-append s.phase order b u))
]

see_voices-Unique :
    (voices : List Voice) (order : List String) → Unique order → Unique (see_voices voices order)
unfolding see_voices
see_voices-Unique [] order u = u
see_voices-Unique (v ∷ voices) order u =
    see_voices-Unique voices (see_steps v.path.steps order) (see_steps-Unique v.path.steps order u)

includes-see_steps :
    (p : String) (steps : List PhaseStep) (order : List String)
    → includes p (see_steps steps order) ≡ (includes p order || any (λ s. s.phase == p) steps)
unfolding see_steps any
includes-see_steps p [] order = ground arith
includes-see_steps p (s ∷ steps) order = elim (Bool-cases (includes s.phase order)) [
  | inl b ↦ ground (arith, b, includes-see_steps p steps order, eq_iff s.phase p)
  | inr b ↦ ground (
    arith,
    b,
    includes-see_steps p steps (order ++ s.phase ∷ []),
    includes-append p s.phase order,
  )
]

-- A voice that visits a phase
abbrev pub visits : String → Voice → Bool
visits p v = any (λ s. s.phase == p) v.path.steps

includes-see_voices :
    (p : String) (voices : List Voice) (order : List String)
    → includes p (see_voices voices order) ≡ (includes p order || any (visits p) voices)
unfolding see_voices any
includes-see_voices p [] order = ground arith
includes-see_voices p (v ∷ voices) order = ground (
  arith,
  includes-see_voices p voices (see_steps v.path.steps order),
  includes-see_steps p v.path.steps order,
)

map-phase :
    (voices : List Voice) (ps : List String) → map (λ c. c.phase) (map (chord_at voices) ps) ≡ ps
unfolding chord_at
map-phase voices [] = refl
map-phase voices (p ∷ ps) = rw (map-phase voices ps)

abbrev pub phases : Polyphony → List String
phases poly = map (λ c. c.phase) poly.chords

compose_voices-phases :
    (voices : List Voice) (poly : Polyphony)
    → compose_voices voices ≡ some poly
    → phases poly ≡ see_voices voices []
unfolding compose_voices
compose_voices-phases [] poly h = cc
compose_voices-phases (v ∷ voices) poly h =
    subst (λ p. phases p ≡ see_voices (v ∷ voices) []) (some-eq_some h)
      (map-phase (v ∷ voices) (see_voices (v ∷ voices) []))

-- The chords of a polyphony have the phases that some voice visits, and no phase twice.
compose_voices-chords :
    (voices : List Voice) (poly : Polyphony)
    → compose_voices voices ≡ some poly
    → ((p : String) → includes p (phases poly) ≡ any (visits p) voices) × Unique (phases poly)
unfolding includes Unique
compose_voices-chords voices poly h =
    let e = compose_voices-phases voices poly h in
    (λ p. rw (e, includes-see_voices p voices []), rw e (see_voices-Unique voices [] tt))

-- A pair sounds at no more than six steps, and no more than `d`.
abbrev Within : ℕ → Pair → Type 0
Within d p = p.distance ≤ d

pairs_with-Within : (a : String) (k : Key) (d : Dict Key) → All (Within 6) (pairs_with a k d)
unfolding pairs_with
pairs_with-Within a k [] = tt
pairs_with-Within a k ((b, l) ∷ more) = (distance_bound k l, pairs_with-Within a k more)

pairwise-Within : (d : Dict Key) → All (Within 6) (pairwise d)
unfolding pairwise
pairwise-Within [] = tt
pairwise-Within ((a, k) ∷ more) =
    All-append (Within 6) (pairs_with a k more) (pairwise more) (pairs_with-Within a k more)
      (pairwise-Within more)

largest-bound : (ps : List Pair) → All (Within 6) ps → largest ps ≤ 6
unfolding largest
largest-bound [] h = omega arith
largest-bound (p ∷ ps) (h, hs) = omega (arith, h, largest-bound ps hs)

found_chord :
    (p : String) (voices : List Voice) (ps : List String)
    → dissonance_of (find (λ c. c.phase == p) (map (chord_at voices) ps)) ≤ 6
unfolding find chord_at
found_chord p voices [] = omega arith
found_chord p voices (q ∷ ps) = elim (Bool-cases (q == p)) [
  | inl b ↦ rw b (largest-bound _ (pairwise-Within (voices_at q voices [])))
  | inr b ↦ rw b (found_chord p voices ps)
]

-- At no phase of a composed polyphony do two voices clash by more than six steps: the largest
-- dissonance is six at most.
max_dissonance_bound :
    (voices : List Voice) (poly : Polyphony) (phase : String)
    → compose_voices voices ≡ some poly
    → max_dissonance_at_phase poly phase ≤ 6
unfolding compose_voices max_dissonance_at_phase
max_dissonance_bound [] poly phase h = cc
max_dissonance_bound (v ∷ voices) poly phase h =
    subst (λ p. max_dissonance_at_phase p phase ≤ 6) (some-eq_some h)
      (found_chord phase (v ∷ voices) (see_voices (v ∷ voices) []))
