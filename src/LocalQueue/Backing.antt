-- ===== src/LocalQueue/Backing.antt =====
-- src/local_queue.ts, `selectQueueBacking`: which backing owns the queue, from the environment. A
-- variable may be present with no value.
use coltrane.Base.{
  String, ◌≡◌, Bool, true, false, Option, none, some, List, [], ◌∷◌, Dict, lookup, keys, any,
  includes, ◌==◌, if◌then◌else◌, refl, ◌↔◌,
}

pub data QueueBackingChoice : Type 0 where
  file : String → QueueBackingChoice
  hosted none_configured conflict : QueueBackingChoice

abbrev pub local_queue_dir_var : String
local_queue_dir_var = "COLTRANE_QUEUE_DIR"

abbrev drain_vars : List String
drain_vars =
    "COLTRANE_DRAIN_KEY" ∷ "COLTRANE_DRAIN_URL" ∷ "COLTRANE_INSTANCE" ∷ "COLTRANE_STORE_ANON"
    ∷ "COLTRANE_STORE_URL" ∷ []

-- `typeof localRaw === "string" && localRaw.length > 0`
abbrev pub non_empty : Option (Option String) → Option String
non_empty (some (some s)) = if s == "" then none else some s
non_empty _ = none

abbrev pub hosted_present : List String → Bool
hosted_present names = any (λ v. includes v names) drain_vars

abbrev choose : Option String → Bool → QueueBackingChoice
choose (some root) true = conflict
choose (some root) false = file root
choose none true = hosted
choose none false = none_configured

pub select_queue_backing : Dict (Option String) → QueueBackingChoice
select_queue_backing env =
    choose (non_empty (lookup local_queue_dir_var env)) (hosted_present (keys env))

-- The choice reads one value and otherwise the names that are present: two environments with the
-- same names and the same COLTRANE_QUEUE_DIR get the same backing, whatever the drain's variables hold.
select_queue_backing-values :
    (env other : Dict (Option String))
    → keys env ≡ keys other
    → lookup local_queue_dir_var env ≡ lookup local_queue_dir_var other
    → select_queue_backing env ≡ select_queue_backing other
unfolding select_queue_backing
select_queue_backing-values env other names same = rw (names, same)

-- A gig is never run through a backing that had a rival: the file queue is chosen exactly when its
-- directory is set and no name of the drain is present, and the hosted one exactly when some name
-- is present and no directory is set.
select_queue_backing_exact :
    (env : Dict (Option String)) (root : String)
    → ((select_queue_backing env ≡ file root) ↔ (
        (non_empty (lookup local_queue_dir_var env) ≡ some root)
        × (hosted_present (keys env) ≡ false)))
      × ((select_queue_backing env ≡ hosted) ↔ (
          (non_empty (lookup local_queue_dir_var env) ≡ none) × (hosted_present (keys env) ≡ true)))
unfolding select_queue_backing
select_queue_backing_exact env root =
    exact (non_empty (lookup local_queue_dir_var env)) (hosted_present (keys env))
  where
    exact :
        (l : Option String) (h : Bool)
        → ((choose l h ≡ file root) ↔ ((l ≡ some root) × (h ≡ false)))
          × ((choose l h ≡ hosted) ↔ ((l ≡ none) × (h ≡ true)))
    exact (some r) true = ((λ e. cc, λ e. cc), (λ e. cc, λ e. cc))
    exact (some r) false = ((λ e. (cc, refl), λ e. cc), (λ e. cc, λ e. cc))
    exact none true = ((λ e. cc, λ e. cc), (λ e. (refl, refl), λ e. refl))
    exact none false = ((λ e. cc, λ e. cc), (λ e. cc, λ e. cc))
