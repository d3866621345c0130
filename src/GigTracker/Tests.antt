-- ===== src/GigTracker/Tests.antt =====
-- A few runs, and the theorems on them.
use coltrane.Base.{String, ◌≡◌, refl, none, some, [], ◌∷◌, Dict, lookup, includes, keys}
use coltrane.GigTracker.{GigRunState, GigStatus, prune_gig_runs}
use coltrane.GigTracker.Retention.{ByGigId, prune-keeps_running}

abbrev fresh_run : String → GigRunState
fresh_run id = record {
  gig_id = id;
  standard_slug = "song";
  status = GigStatus.running;
  started_at = "0";
  finished_at = none;
  phases_total = 1;
  current_phase = none;
  phases_seen = [];
  chairs = [];
  outputs_count = 0;
  error = none;
  awaiting = none;
  skipped_chairs = [];
  resumed_from = none;
  reuse_rejected = [];
  abort_reason = none;
}

abbrev over : GigRunState
over = record (fresh_run "g2") { status = GigStatus.complete }

abbrev two_runs : Dict GigRunState
two_runs = ("g2", over) ∷ ("g1", fresh_run "g1") ∷ []

prune-keeps_running_example : lookup "g1" (prune_gig_runs two_runs 0).0 ≡ some (fresh_run "g1")
unfolding ByGigId includes keys lookup
prune-keeps_running_example =
    prune-keeps_running two_runs 0 "g1" (fresh_run "g1") (refl, refl, (refl, refl, tt)) refl refl
