-- ===== src/LocalQueue/Tests.antt =====
-- Small queues, and the theorems on them.
use coltrane.Base.{
  ℕ, ◌+◌, String, ◌≡◌, refl, true, false, none, some, List, [], ◌∷◌, arith, Dict, lookup,
}
use coltrane.Base.Json.{Json, str}
use coltrane.LocalQueue.{
  StoredGig, readable, Disk, claimed, done, ok, throw, not_holder, forked_result, fresh_gig, leased,
  sealed_with, held_by, read_gig, heartbeat, reap, park, complete, fail,
}
use coltrane.LocalQueue.Copies.{copies, IsPlaced}
use coltrane.LocalQueue.Verbs.{Verb, enqueues, claims, reaps, run}
use coltrane.LocalQueue.Histories.{copies-run, created_in}
use coltrane.LocalQueue.Terminal.{sealed-run}
use coltrane.LocalQueue.Sealing.{complete_once}
use coltrane.LocalQueue.Leases.{stranger_refused, heartbeat_protects}

abbrev seal_text : Json → String
seal_text (str s) = s
seal_text _ = "other"

abbrev empty_disk : Disk
empty_disk = record {
  queued_dir = [];
  claimed_dir = [];
  parked_dir = [];
  done_dir = [];
  failed_dir = [];
  cancelled_dir = [];
}

abbrev song_args : Dict Json
song_args = ("standard_slug", str "song") ∷ []

abbrev song : StoredGig
song = fresh_gig song_args "song" "g1" 5

abbrev held_song : StoredGig
held_song = leased "w1" 10 30 song

abbrev sealed_song : StoredGig
sealed_song = sealed_with "abc" (str "abc") held_song

abbrev claimed_disk : Disk
claimed_disk = record empty_disk { claimed_dir = ("g1", readable held_song) ∷ [] }

abbrev done_disk : Disk
done_disk = record empty_disk { done_dir = ("g1", readable sealed_song) ∷ [] }

done_disk-IsPlaced : IsPlaced done_disk
unfolding copies lookup
done_disk-IsPlaced = record { at = λ j. ground arith }

claimed_disk-IsPlaced : IsPlaced claimed_disk
unfolding copies lookup
claimed_disk-IsPlaced = record { at = λ j. ground arith }

abbrev second_song : List (ℕ × Verb)
second_song = (0, enqueues song_args "g2") ∷ (1, claims "w2") ∷ (90, reaps) ∷ []

copies-run_example :
    copies (run seal_text 30 done_disk second_song) "g2"
    ≡ copies done_disk "g2" + created_in seal_text 30 second_song "g2"
unfolding copies lookup
copies-run_example =
    copies-run seal_text 30 done_disk second_song "g2" done_disk-IsPlaced (refl, (tt, (tt, tt)))

sealed-run_example :
    (read_gig done "g1" (run seal_text 30 done_disk second_song) ≡ some sealed_song)
    × (lookup "g1" (run seal_text 30 done_disk second_song).queued_dir ≡ none)
    × (lookup "g1" (run seal_text 30 done_disk second_song).claimed_dir ≡ none)
unfolding copies lookup read_gig
sealed-run_example =
    sealed-run seal_text 30 done_disk second_song "g1" "abc" sealed_song done_disk-IsPlaced
      (refl, (tt, (tt, tt))) refl refl

complete_once_example :
    (d' : Disk) × (complete seal_text "w1" "g1" (str "abc") claimed_disk
      ≡ ok (record { content_sha = "abc"; duplicated = false }, d'))
    × (read_gig done "g1" d' ≡ some sealed_song)
    × (lookup "g1" d'.claimed_dir ≡ none)
    × (complete seal_text "w1" "g1" (str "xyz") d' ≡ throw forked_result)
unfolding read_gig lookup
complete_once_example =
    complete_once seal_text "w1" "g1" (str "abc") (str "xyz") held_song claimed_disk
      claimed_disk-IsPlaced refl refl refl

stranger_refused_example :
    (heartbeat "w2" "g1" 20 30 claimed_disk ≡ (false, claimed_disk))
    × (park "w2" "g1" claimed_disk ≡ (false, claimed_disk))
    × (fail "w2" "g1" "lost" claimed_disk ≡ (false, claimed_disk))
    × (complete seal_text "w2" "g1" (str "abc") claimed_disk ≡ throw not_holder)
unfolding read_gig lookup copies
stranger_refused_example =
    stranger_refused seal_text "w2" "g1" "lost" (str "abc") 20 30 held_song claimed_disk
      (omega arith) refl refl

heartbeat_protects_example :
    (g : StoredGig) × (read_gig claimed "g1" (reap 45 (heartbeat "w1" "g1" 20 30 claimed_disk).1).1
      ≡ some g)
    × (held_by "w1" g.lease ≡ true)
unfolding heartbeat read_gig lookup
heartbeat_protects_example = heartbeat_protects "w1" "g1" 20 45 30 claimed_disk refl (omega arith)
