-- ===== src/GigTracker.antt =====
-- src/gig_tracker.ts: the live state of a gig, folded from its progress events, and the retention of
-- settled runs. Left out of the state are the fields that these functions neither read nor write;
-- `now` is the clock's reading, which `gig_aborted` takes.
mod Rows
mod Retention
mod Tests
use coltrane.Base.{
  ℕ, zero, suc, ◌+◌, ◌-◌, String, Bool, true, false, not, ◌&&◌, ◌||◌, Option, none, some, List, [],
  ◌∷◌, ◌++◌, ◌==◌, Dict, lookup, put, without, includes, length, leb, str_leb, is_some,
  if◌then◌else◌, or_else, keep,
}

pub data ChairStatus : Type 0 where
  running complete failed skipped : ChairStatus

pub record GigChairState : Type 0 where
  pub role : String
  pub phase : String
  pub status : ChairStatus
  pub producer : Option String
  pub output_types : Option (List String)
  pub duration_ms : Option ℕ
  pub tool_calls : List String
  pub error : Option String
  pub skipped_reason : Option String
  pub source_gig_id : Option String

pub data GigStatus : Type 0 where
  running complete failed aborted awaiting_approval : GigStatus

pub record SkippedChair : Type 0 where
  pub phase : String
  pub role : String
  pub reason : String
  pub source_gig_id : String
  pub output_types : List String

pub record ReuseRejected : Type 0 where
  pub phase : String
  pub role : String
  pub reason : String
  pub detail : Option String

pub record GigRunState : Type 0 where
  pub gig_id : String
  pub standard_slug : String
  pub status : GigStatus
  pub started_at : String
  pub finished_at : Option String
  pub phases_total : ℕ
  pub current_phase : Option String
  pub phases_seen : List String
  pub chairs : Dict GigChairState
  pub outputs_count : ℕ
  pub error : Option String
  pub awaiting : Option (String × String)
  pub skipped_chairs : List SkippedChair
  pub resumed_from : Option (String × List String × ℕ)
  pub reuse_rejected : List ReuseRejected
  pub abort_reason : Option String

abbrev is_terminal_status : GigStatus → Bool
is_terminal_status complete = true
is_terminal_status failed = true
is_terminal_status aborted = true
is_terminal_status _ = false

unfoldable pub new_gig_run : String → String → ℕ → String → GigRunState
new_gig_run gig_id standard_slug phases_total now = record {
  gig_id = gig_id;
  standard_slug = standard_slug;
  status = running;
  started_at = now;
  finished_at = none;
  phases_total = phases_total;
  current_phase = none;
  phases_seen = [];
  chairs = [];
  outputs_count = 0;
  error = none;
  awaiting = none;
  skipped_chairs = [];
  resumed_from = none;
  reuse_rejected = [];
  abort_reason = none;
}

-- The events of src/runtime.ts, each with the fields that are read here. The tool of an agent event
-- is there when the event is a `tool_use` that names one.
pub data GigProgressEvent : Type 0 where
  phase_start : String → List String → GigProgressEvent
  chair_start : String → String → String → GigProgressEvent
  agent_event : String → Option String → GigProgressEvent
  chair_complete : String → String → String → List String → ℕ → GigProgressEvent
  chair_failed : String → String → String → GigProgressEvent
  gig_resumed : String → List String → ℕ → GigProgressEvent
  chair_skipped : String → String → String → String → List String → GigProgressEvent
  reuse_rejected : String → String → String → Option String → GigProgressEvent
  gig_complete : ℕ → GigProgressEvent
  gig_awaiting_approval : String → String → GigProgressEvent
  gig_failed : String → GigProgressEvent
  gig_aborted : String → GigProgressEvent

abbrev pub fresh_chair : String → String → GigChairState
fresh_chair role phase = record {
  role = role;
  phase = phase;
  status = running;
  producer = none;
  output_types = none;
  duration_ms = none;
  tool_calls = [];
  error = none;
  skipped_reason = none;
  source_gig_id = none;
}

-- The roles of a phase that starts: those without a row get one.
unfoldable pub open_roles : String → List String → Dict GigChairState → Dict GigChairState
open_roles phase [] chairs = chairs
open_roles phase (role ∷ roles) chairs =
    open_roles phase roles
      (if is_some (lookup role chairs) then chairs else put role (fresh_chair role phase) chairs)

abbrev pub call_tool :
    String → Option String → Option GigChairState → Dict GigChairState → Dict GigChairState
call_tool role (some tool) (some c) chairs =
    if tool == ""
    then chairs
    else put role (record c { tool_calls = c.tool_calls ++ tool ∷ [] }) chairs
call_tool role _ _ chairs = chairs

unfoldable pub apply_gig_progress : GigRunState → GigProgressEvent → String → GigRunState
unfolding open_roles
apply_gig_progress state (phase_start phase roles) now = record state {
  current_phase = some phase;
  phases_seen =
      if includes phase state.phases_seen
      then state.phases_seen
      else state.phases_seen ++ phase ∷ [];
  chairs = open_roles phase roles state.chairs;
}
apply_gig_progress state (chair_start role phase producer) now = record state {
  chairs = put role (record (fresh_chair role phase) { producer = some producer }) state.chairs;
}
apply_gig_progress state (agent_event role tool) now = record state {
  chairs = call_tool role tool (lookup role state.chairs) state.chairs;
}
apply_gig_progress state (chair_complete role phase producer output_types duration) now =
    record state {
      chairs =
          put role
            (record (or_else (lookup role state.chairs) (fresh_chair role phase)) {
              status = complete;
              producer = some producer;
              output_types = some output_types;
              duration_ms = some duration;
            })
            state.chairs;
      outputs_count = state.outputs_count + length output_types;
    }
apply_gig_progress state (chair_failed role phase error) now = record state {
  chairs =
      put role
        (record (or_else (lookup role state.chairs) (fresh_chair role phase)) {
          status = failed;
          error = some error;
        })
        state.chairs;
}
apply_gig_progress state (gig_resumed from_gig_id roles outputs) now = record state {
  resumed_from = some (from_gig_id, roles, outputs);
  outputs_count = state.outputs_count + outputs;
}
apply_gig_progress state (chair_skipped role phase reason source output_types) now = record state {
  chairs =
      put role
        (record (fresh_chair role phase) {
          status = skipped;
          output_types = some output_types;
          skipped_reason = some reason;
          source_gig_id = some source;
        })
        state.chairs;
  skipped_chairs =
      state.skipped_chairs
      ++ record {
        phase = phase;
        role = role;
        reason = reason;
        source_gig_id = source;
        output_types = output_types;
      }
        ∷ [];
}
apply_gig_progress state (reuse_rejected phase role reason detail) now = record state {
  reuse_rejected =
      state.reuse_rejected
      ++ record { phase = phase; role = role; reason = reason; detail = detail } ∷ [];
}
apply_gig_progress state (gig_complete outputs) now = record state { outputs_count = outputs }
apply_gig_progress state (gig_awaiting_approval phase role) now = record state {
  status = awaiting_approval;
  awaiting = some (phase, role);
}
apply_gig_progress state (gig_failed error) now = record state { error = some error }
apply_gig_progress state (gig_aborted reason) now = record state {
  status = aborted;
  abort_reason = some reason;
  finished_at = some (or_else state.finished_at now);
}

abbrev pub is_running : GigStatus → Bool
is_running running = true
is_running _ = false

unfoldable pub settled : Dict GigRunState → List GigRunState
settled [] = []
settled ((id, s) ∷ runs) = let rest = settled runs in if is_running s.status then rest else s ∷ rest

abbrev pub at : GigRunState → String
at s = or_else s.finished_at s.started_at

-- The stable sort by `at`: an entry goes before those that are not earlier and stood after it.
unfoldable pub insert_run : GigRunState → List GigRunState → List GigRunState
insert_run s [] = s ∷ []
insert_run s (t ∷ ts) =
    let rest = insert_run s ts in if str_leb (at s) (at t) then s ∷ t ∷ ts else t ∷ rest

unfoldable pub sort_runs : List GigRunState → List GigRunState
unfolding insert_run
sort_runs [] = []
sort_runs (s ∷ ts) = insert_run s (sort_runs ts)

-- `xs.slice(0, n)`
unfoldable pub take {ℓ} : {A : Type ℓ} → ℕ → List A → List A
take zero xs = []
take (suc n) [] = []
take (suc n) (x ∷ xs) = x ∷ take n xs

unfoldable pub delete_all : List GigRunState → Dict GigRunState → Dict GigRunState
delete_all [] runs = runs
delete_all (s ∷ drop) runs = delete_all drop (without s.gig_id runs)

-- The runs that stay, and how many were dropped.
unfoldable pub prune_gig_runs : Dict GigRunState → ℕ → Dict GigRunState × ℕ
unfolding settled sort_runs take delete_all
prune_gig_runs runs max =
    let old = settled runs in
    let drop = take (length old - max) (sort_runs old) in
    if leb (length old) max then (runs, 0) else (delete_all drop runs, length drop)
