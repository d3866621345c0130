-- ===== src/LocalQueue/Verbs.antt =====
-- The verbs of the queue as data, for what holds after any of them and after any sequence of them.
use coltrane.Base.{ℕ, String, Option, List, [], ◌∷◌, Dict}
use coltrane.Base.Json.{Json}
use coltrane.LocalQueue.{
  Disk, Result, ok, throw, enqueue, claim, heartbeat, reap, park, approve, cancel, complete, fail,
}

pub data Verb : Type 0 where
  enqueues : Dict Json → String → Verb
  claims : String → Verb
  beats : String → String → Verb
  reaps : Verb
  parks : String → String → Verb
  approves : String → String → Json → Option String → Verb
  cancels : String → Verb
  completes : String → String → Json → Verb
  fails : String → String → String → Verb

-- What a promise that rejects leaves behind: the disk as it was, since each verb throws before its
-- first write.
abbrev pub after {ℓ} : {A : Type ℓ} → Disk → Result (A × Disk) → Disk
after d (throw e) = d
after d (ok (a, d')) = d'

module _ (seal : Json → String) (lease_ms : ℕ) where
  unfoldable pub step : Disk → ℕ × Verb → Disk
  step d (now, enqueues args id) = after d (enqueue args id now d)
  step d (now, claims worker) = (claim worker now lease_ms d).1
  step d (now, beats worker id) = (heartbeat worker id now lease_ms d).1
  step d (now, reaps) = (reap now d).1
  step d (now, parks worker id) = (park worker id d).1
  step d (now, approves id role verdict by) = after d (approve id role verdict by d)
  step d (now, cancels id) = (cancel id d).1
  step d (now, completes worker id output) = after d (complete seal worker id output d)
  step d (now, fails worker id error) = (fail worker id error d).1

  unfoldable pub run : Disk → List (ℕ × Verb) → Disk
  run d [] = d
  run d (v ∷ vs) = run (step d v) vs
