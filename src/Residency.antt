-- ===== src/Residency.antt =====
-- src/residency.ts: a residency's row, the table of legal transitions, and the one function that
-- applies an operation to a row under its party constraint. A `null` and an absent optional field are
-- both `none`.
mod Laws
mod Histories
mod Boot
mod Tests
use coltrane.Base.{
  ℕ, ◌+◌, String, Bool, true, false, not, ◌&&◌, Option, none, some, List, [], ◌∷◌, max, ltb, eqb,
  if◌then◌else◌, ◌==◌, find, includes,
}
use coltrane.Base.Json.{Json}

pub data ResidencyState : Type 0 where
  seated listening playing hibernated drained unseated : ResidencyState

pub data OpKind : Type 0 where
  claim listen play wake_seal ack heartbeat hibernate thaw drain unseat reap : OpKind

pub data Actor : Type 0 where
  holder reaper operator : Actor

-- `===` on the three enumerations goes by position.
abbrev state_code : ResidencyState → ℕ
state_code seated = 0
state_code listening = 1
state_code playing = 2
state_code hibernated = 3
state_code drained = 4
state_code unseated = 5

abbrev op_code : OpKind → ℕ
op_code claim = 0
op_code listen = 1
op_code play = 2
op_code wake_seal = 3
op_code ack = 4
op_code heartbeat = 5
op_code hibernate = 6
op_code thaw = 7
op_code drain = 8
op_code unseat = 9
op_code reap = 10

abbrev pub is_live : ResidencyState → Bool
is_live drained = false
is_live unseated = false
is_live _ = true

record LegalTransition : Type 0 where
  pub from : ResidencyState
  pub op : OpKind
  pub to : ResidencyState

abbrev legal_transitions : List LegalTransition
legal_transitions =
    record { from = unseated; op = claim; to = seated }
    ∷ record { from = seated; op = listen; to = listening }
    ∷ record { from = playing; op = listen; to = listening }
    ∷ record { from = seated; op = play; to = playing }
    ∷ record { from = listening; op = play; to = playing }
    ∷ record { from = listening; op = wake_seal; to = listening }
    ∷ record { from = playing; op = wake_seal; to = listening }
    ∷ record { from = seated; op = ack; to = seated }
    ∷ record { from = listening; op = ack; to = listening }
    ∷ record { from = playing; op = ack; to = playing }
    ∷ record { from = hibernated; op = ack; to = hibernated }
    ∷ record { from = seated; op = heartbeat; to = seated }
    ∷ record { from = listening; op = heartbeat; to = listening }
    ∷ record { from = playing; op = heartbeat; to = playing }
    ∷ record { from = hibernated; op = heartbeat; to = hibernated }
    ∷ record { from = seated; op = hibernate; to = hibernated }
    ∷ record { from = listening; op = hibernate; to = hibernated }
    ∷ record { from = playing; op = hibernate; to = hibernated }
    ∷ record { from = hibernated; op = thaw; to = listening }
    ∷ record { from = seated; op = drain; to = drained }
    ∷ record { from = listening; op = drain; to = drained }
    ∷ record { from = playing; op = drain; to = drained }
    ∷ record { from = hibernated; op = drain; to = drained }
    ∷ record { from = seated; op = unseat; to = unseated }
    ∷ record { from = listening; op = unseat; to = unseated }
    ∷ record { from = playing; op = unseat; to = unseated }
    ∷ record { from = hibernated; op = unseat; to = unseated }
    ∷ record { from = hibernated; op = reap; to = unseated }
    ∷ []

abbrev targets : Option LegalTransition → Option ResidencyState
targets none = none
targets (some t) = some t.to

unfoldable pub legal_target : ResidencyState → OpKind → Option ResidencyState
unfolding find
legal_target from op = targets (
    find (λ t. eqb (state_code t.from) (state_code from) && eqb (op_code t.op) (op_code op))
      legal_transitions)

pub record ResidencyRecord : Type 0 where
  pub agent_slug : String
  pub org : String
  pub venue_slug : String
  pub channel_id : String
  pub soul_output_id : Option String
  pub status : ResidencyState
  pub session_id : Option String
  pub cursor : ℕ
  pub host : Option String
  pub lease_until : ℕ
  pub heartbeat_at : ℕ
  pub fence : ℕ
  pub last_sealed_sha : Option String
  pub private_memory : Option Json

pub record ResidencyOp : Type 0 where
  pub kind : OpKind
  pub by : Option Actor
  pub fence : Option ℕ
  pub now : Option ℕ
  pub host : Option String
  pub session_id : Option String
  pub message_index : Option ℕ
  pub sealed_output_sha : Option String
  pub cortex_alive : Option Bool
  pub agent_slug : Option String
  pub org : Option String
  pub channel_id : Option String

pub data Refusal : Type 0 where
  illegal_transition wrong_party stale_fence dead_cortex immutable_identity : Refusal
  cursor_without_seal double_activation : Refusal

pub data Transition : Type 0 where
  ok : ResidencyRecord → Transition
  refuse : Refusal → Transition

-- `RESERVED_PARTY[op.kind]` is there and is not `op.by`.
abbrev pub wrong_actor : OpKind → Option Actor → Bool
wrong_actor hibernate (some holder) = false
wrong_actor hibernate _ = true
wrong_actor thaw (some holder) = false
wrong_actor thaw _ = true
wrong_actor unseat (some holder) = false
wrong_actor unseat _ = true
wrong_actor reap (some reaper) = false
wrong_actor reap _ = true
wrong_actor _ by = false

-- `op.fence !== undefined && op.fence < rec.fence`, and the same for a wake's message index
abbrev pub below : Option ℕ → ℕ → Bool
below none n = false
below (some m) n = ltb m n

-- `op.x !== undefined && op.x !== rec.x`
abbrev pub differs : Option String → String → Bool
differs none t = false
differs (some s) t = not (s == t)

abbrev pub next_fence : Option ℕ → ℕ → ℕ
next_fence none n = n
next_fence (some m) n = max n m

abbrev is_false : Option Bool → Bool
is_false (some false) = true
is_false _ = false

abbrev pub replace {ℓ} : {A : Type ℓ} → Option A → Option A → Option A
replace none old = old
replace (some a) old = some a

abbrev replace_number : Option ℕ → ℕ → ℕ
replace_number none old = old
replace_number (some n) old = n

-- The seal: the cursor and the hash that moved it, in one write.
pub seal_wake : ResidencyRecord → ResidencyOp → ResidencyState → Transition
seal_wake rec op target =
    if below op.message_index rec.cursor
    then refuse illegal_transition
    else elim op.sealed_output_sha [
      | none ↦ refuse cursor_without_seal
      | some sha ↦
          if sha == ""
          then refuse cursor_without_seal
          else ok (record rec {
            status = target;
            cursor = rec.cursor + 1;
            last_sealed_sha = some sha;
            fence = next_fence op.fence rec.fence;
          })
    ]

-- What the other operations write beside the status and the fence.
pub patched : OpKind → ResidencyOp → ResidencyRecord → ResidencyRecord
patched claim op rec = record rec {
  host = replace op.host rec.host;
  session_id = replace op.session_id rec.session_id;
}
patched thaw op rec = record rec { host = replace op.host rec.host }
patched heartbeat op rec = record rec { heartbeat_at = replace_number op.now rec.heartbeat_at }
patched _ op rec = rec

-- The write, once every guard has passed.
pub commit : OpKind → ResidencyRecord → ResidencyOp → ResidencyState → Transition
unfolding seal_wake patched
commit wake_seal rec op target = seal_wake rec op target
commit kind rec op target =
    ok (patched kind op (record rec { status = target; fence = next_fence op.fence rec.fence }))

abbrev pub dead_heartbeat : OpKind → Option Bool → Bool
dead_heartbeat heartbeat alive = is_false alive
dead_heartbeat _ alive = false

abbrev pub second_claim : OpKind → ResidencyState → Bool
second_claim claim status = is_live status
second_claim _ status = false

pub apply_residency_op : ResidencyRecord → ResidencyOp → Transition
apply_residency_op rec op =
    if second_claim op.kind rec.status
    then refuse double_activation
    else elim (legal_target rec.status op.kind) [
      | none ↦ refuse illegal_transition
      | some target ↦
          if wrong_actor op.kind op.by
          then refuse wrong_party
          else if below op.fence rec.fence
          then refuse stale_fence
          else if differs op.agent_slug rec.agent_slug
          then refuse immutable_identity
          else if differs op.org rec.org
          then refuse immutable_identity
          else if differs op.channel_id rec.channel_id
          then refuse immutable_identity
          else if dead_heartbeat op.kind op.cortex_alive
          then refuse dead_cortex
          else commit op.kind rec op target
    ]

pub reap_residency : ResidencyRecord → ℕ → Transition
reap_residency rec now =
    if eqb (state_code rec.status) (state_code hibernated) && ltb rec.lease_until now
    then ok (record rec { status = unseated; host = none; session_id = none })
    else refuse illegal_transition
