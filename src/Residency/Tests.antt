-- ===== src/Residency/Tests.antt =====
-- A residency through its operations, and the theorems on it.
use coltrane.Base.{◌≤◌, String, ◌≡◌, ◌≢◌, refl, false, none, some, [], ◌∷◌, ◌⊎◌}
use coltrane.Residency.{
  ResidencyRecord, ResidencyOp, ResidencyState, OpKind, listening, wake_seal, drain, legal_target,
  below, apply_residency_op, commit, seal_wake,
}
use coltrane.Residency.Laws.{apply_sound, apply-cursor}
use coltrane.Residency.Histories.{Advanced, run, run-Advanced}

abbrev in_state : ResidencyState → ResidencyRecord
in_state status = record {
  agent_slug = "trane";
  org = "eir";
  venue_slug = "hall";
  channel_id = "c1";
  soul_output_id = none;
  status = status;
  session_id = some "s1";
  cursor = 3;
  host = some "h1";
  lease_until = 100;
  heartbeat_at = 10;
  fence = 5;
  last_sealed_sha = none;
  private_memory = none;
}

abbrev plain : OpKind → ResidencyOp
plain kind = record {
  kind = kind;
  by = none;
  fence = none;
  now = none;
  host = none;
  session_id = none;
  message_index = none;
  sealed_output_sha = none;
  cortex_alive = none;
  agent_slug = none;
  org = none;
  channel_id = none;
}

abbrev sealing : ResidencyOp
sealing = record (plain wake_seal) {
  fence = some 7;
  message_index = some 3;
  sealed_output_sha = some "abc";
}

abbrev woken : ResidencyRecord
woken = record (in_state listening) { cursor = 4; fence = 7; last_sealed_sha = some "abc" }

apply_sound_example :
    (legal_target listening wake_seal ≡ some listening)
    × (woken.agent_slug ≡ "trane")
    × (woken.org ≡ "eir")
    × (woken.channel_id ≡ "c1")
    × (woken.venue_slug ≡ "hall")
    × (5 ≤ woken.fence)
    × (woken.fence ≡ 7)
unfolding apply_residency_op legal_target commit seal_wake
apply_sound_example = apply_sound (in_state listening) woken sealing refl

apply-cursor_example :
    ((woken.cursor ≡ 3) × (woken.last_sealed_sha ≡ none))
    ⊎ ((sha : String) × (wake_seal ≡ wake_seal)
        × (some "abc" ≡ some sha)
        × (sha ≢ "")
        × (below (some 3) 3 ≡ false)
        × (woken.cursor ≡ 4)
        × (woken.last_sealed_sha ≡ some sha))
unfolding apply_residency_op legal_target commit seal_wake
apply-cursor_example = apply-cursor (in_state listening) woken sealing refl

run-Advanced_example :
    Advanced (in_state listening) (run (in_state listening) (sealing ∷ plain drain ∷ []))
run-Advanced_example = run-Advanced (in_state listening) (sealing ∷ plain drain ∷ [])
