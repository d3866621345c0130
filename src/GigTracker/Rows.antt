-- ===== src/GigTracker/Rows.antt =====
-- The rows of the chairs and the phases, through the events of src/gig_tracker.ts.
use coltrane.Base.{
  ℕ, String, true, Option, none, some, List, [], ◌∷◌, ◌++◌, ◌==◌, ◌≡◌, refl, ◌∙◌, subst, Dict,
  lookup, put, lookup-put, includes, Unique, Unique-append, includes-append, Bool-cases,
  Option-cases, some-eq_some, inl, inr, eq_iff, eq_refl, is_some, if◌then◌else◌, or_else, arith,
}
use coltrane.GigTracker.{
  GigChairState, GigRunState, GigProgressEvent, fresh_chair, open_roles, call_tool,
  apply_gig_progress, new_gig_run, phase_start, chair_start, agent_event, chair_complete,
  chair_failed, chair_skipped,
}

-- The row that a role looks up is of that role.
pub record OwnRows (chairs : Dict GigChairState) : Type 0 where
  pub own : (role : String) (c : GigChairState) → lookup role chairs ≡ some c → c.role ≡ role

none-some {ℓ κ} : {A : Type ℓ} {B : Type κ} {a : A} → none ≡ some a → B
none-some h = cc

put-OwnRows :
    (role : String) (c : GigChairState) (chairs : Dict GigChairState)
    → c.role ≡ role
    → OwnRows chairs
    → OwnRows (put role c chairs)
put-OwnRows role c chairs e h = record {
  own = λ r d l. elim (Bool-cases (role == r)) [
    | inl b ↦
        subst (λ x. x.role ≡ r) (some-eq_some (rw (lookup-put role r c chairs, b) at l))
          (e ∙ (eq_iff role r).0 b)
    | inr b ↦ h.own r d (rw (lookup-put role r c chairs, b) at l)
  ];
}

row-role :
    (role phase : String) (chairs : Dict GigChairState)
    → OwnRows chairs
    → (or_else (lookup role chairs) (fresh_chair role phase)).role ≡ role
row-role role phase chairs h = elim (Option-cases (lookup role chairs)) [
  | inl e ↦ rw e
  | inr (c, e) ↦ rw e (h.own role c e)
]

open_roles-OwnRows :
    (phase : String) (roles : List String) (chairs : Dict GigChairState)
    → OwnRows chairs
    → OwnRows (open_roles phase roles chairs)
unfolding open_roles
open_roles-OwnRows phase [] chairs h = h
open_roles-OwnRows phase (role ∷ roles) chairs h =
    elim (Bool-cases (is_some (lookup role chairs))) [
      | inl b ↦ rw b (open_roles-OwnRows phase roles chairs h)
      | inr b ↦ rw b (
          open_roles-OwnRows phase roles (put role (fresh_chair role phase) chairs)
            (put-OwnRows role (fresh_chair role phase) chairs refl h))
    ]

call_tool-OwnRows :
    (role : String) (tool : Option String) (chairs : Dict GigChairState)
    → OwnRows chairs
    → OwnRows (call_tool role tool (lookup role chairs) chairs)
call_tool-OwnRows role none chairs h = h
call_tool-OwnRows role (some tool) chairs h = elim (Option-cases (lookup role chairs)) [
  | inl e ↦ rw e h
  | inr (c, e) ↦ elim (Bool-cases (tool == "")) [
    | inl b ↦ rw (e, b) h
    | inr b ↦ rw (e, b) (put-OwnRows role _ chairs (h.own role c e) h)
  ]
]

abbrev see : String → List String → List String
see phase seen = if includes phase seen then seen else seen ++ phase ∷ []

see-Unique : (phase : String) (seen : List String) → Unique seen → Unique (see phase seen)
see-Unique phase seen u = elim (Bool-cases (includes phase seen)) [
  | inl b ↦ rw b u
  | inr b ↦ rw b (Unique-append phase seen b u)
]

includes-see : (phase : String) (seen : List String) → includes phase (see phase seen) ≡ true
includes-see phase seen = elim (Bool-cases (includes phase seen)) [
  | inl b ↦ rw (b, b)
  | inr b ↦ rw b (ground (arith, includes-append phase phase seen, eq_refl phase))
]

-- The state of a gig's live run: each role's row is its own, and no phase is listed twice.
pub record IsTracked (state : GigRunState) : Type 0 where
  pub rows : OwnRows state.chairs
  pub phases : Unique state.phases_seen
  pub current : (p : String) → state.current_phase ≡ some p → includes p state.phases_seen ≡ true

apply-IsTracked :
    (state : GigRunState) (ev : GigProgressEvent) (now : String)
    → IsTracked state
    → IsTracked (apply_gig_progress state ev now)
unfolding apply_gig_progress
apply-IsTracked state (phase_start phase roles) now h = record {
  rows = open_roles-OwnRows phase roles state.chairs h.rows;
  phases = see-Unique phase state.phases_seen h.phases;
  current = λ p e.
      subst (λ q. includes q (see phase state.phases_seen) ≡ true) (some-eq_some e)
        (includes-see phase state.phases_seen);
}
apply-IsTracked state (chair_start role phase producer) now h = record {
  rows = put-OwnRows role _ state.chairs refl h.rows;
  phases = h.phases;
  current = h.current;
}
apply-IsTracked state (agent_event role tool) now h = record {
  rows = call_tool-OwnRows role tool state.chairs h.rows;
  phases = h.phases;
  current = h.current;
}
apply-IsTracked state (chair_complete role phase producer output_types duration) now h = record {
  rows = put-OwnRows role _ state.chairs (row-role role phase state.chairs h.rows) h.rows;
  phases = h.phases;
  current = h.current;
}
apply-IsTracked state (chair_failed role phase error) now h = record {
  rows = put-OwnRows role _ state.chairs (row-role role phase state.chairs h.rows) h.rows;
  phases = h.phases;
  current = h.current;
}
apply-IsTracked state (chair_skipped role phase reason source output_types) now h = record {
  rows = put-OwnRows role _ state.chairs refl h.rows;
  phases = h.phases;
  current = h.current;
}
apply-IsTracked state ev now h = record { rows = h.rows; phases = h.phases; current = h.current }

-- Events one after another, each with the time at which it is applied.
unfoldable pub track : GigRunState → List (GigProgressEvent × String) → GigRunState
unfolding apply_gig_progress
track state [] = state
track state ((ev, now) ∷ events) = track (apply_gig_progress state ev now) events

track-IsTracked :
    (state : GigRunState) (events : List (GigProgressEvent × String))
    → IsTracked state
    → IsTracked (track state events)
unfolding track
track-IsTracked state [] h = h
track-IsTracked state ((ev, now) ∷ events) h =
    track-IsTracked (apply_gig_progress state ev now) events (apply-IsTracked state ev now h)

-- Whatever events a new run goes through, in whatever order: a role's row is of that role, no phase
-- is listed twice among those seen, and the current phase is one of them.
new_run-IsTracked :
    (gig_id standard_slug : String) (phases_total : ℕ) (started_at : String)
    (events : List (GigProgressEvent × String))
    → IsTracked (track (new_gig_run gig_id standard_slug phases_total started_at) events)
unfolding new_gig_run lookup Unique
new_run-IsTracked gig_id standard_slug phases_total started_at events =
    track-IsTracked (new_gig_run gig_id standard_slug phases_total started_at) events (record {
      rows = record { own = λ r c e. none-some e };
      phases = tt;
      current = λ p e. none-some e;
    })
