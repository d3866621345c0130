-- ===== src/Residency/Histories.antt =====
-- A residency over a sequence of operations: a refused one leaves the row as it was.
use coltrane.Base.{
  ℕ, ◌≤◌, ◌≡◌, refl, ◌∙◌, true, false, Option, none, some, List, [], ◌∷◌, ◌⊎◌, inl, inr, arith,
}
use coltrane.Residency.{
  ResidencyState, seated, hibernated, drained, unseated, OpKind, claim, wake_seal, reap, Actor,
  reaper, ResidencyRecord, ResidencyOp, Transition, ok, refuse, illegal_transition,
  double_activation, legal_target, apply_residency_op, reap_residency, commit, is_live,
  second_claim, wrong_actor, below, differs, dead_heartbeat,
}
use coltrane.Residency.Laws.{apply-Accepted, apply_sound, apply-cursor}

abbrev kept_or : ResidencyRecord → Transition → ResidencyRecord
kept_or rec (ok next) = next
kept_or rec (refuse r) = rec

pub run : ResidencyRecord → List ResidencyOp → ResidencyRecord
run rec [] = rec
run rec (op ∷ ops) = run (kept_or rec (apply_residency_op rec op)) ops

-- No operation applies to a drained residency.
drained_illegal : (kind : OpKind) → legal_target drained kind ≡ none
unfolding legal_target
drained_illegal claim = refl
drained_illegal kind = refl

drained_unclaimed : (kind : OpKind) → second_claim kind drained ≡ false
drained_unclaimed claim = refl
drained_unclaimed kind = refl

-- A claim starts a life; no other operation does.
legal_claim :
    (from to : ResidencyState)
    → legal_target from claim ≡ some to
    → (from ≡ unseated) × (to ≡ seated)
unfolding legal_target
legal_claim unseated to h = (refl, cc)
legal_claim from to h = cc

live_claim : (status : ResidencyState) → is_live status ≡ true → second_claim claim status ≡ true
live_claim status h = h

off_table :
    (rec : ResidencyRecord) (op : ResidencyOp)
    → second_claim op.kind rec.status ≡ false
    → legal_target rec.status op.kind ≡ none
    → apply_residency_op rec op ≡ refuse illegal_transition
unfolding apply_residency_op
off_table rec op s l = ground arith

drained_refused :
    (rec : ResidencyRecord) (op : ResidencyOp)
    → rec.status ≡ drained
    → apply_residency_op rec op ≡ refuse illegal_transition
drained_refused rec op e =
    off_table rec op (rw e (drained_unclaimed op.kind)) (rw e (drained_illegal op.kind))

-- Draining ends a residency for good: no sequence of operations changes a drained row.
drained-run :
    (rec : ResidencyRecord) (ops : List ResidencyOp) → rec.status ≡ drained → run rec ops ≡ rec
unfolding run
drained-run rec [] e = refl
drained-run rec (op ∷ ops) e = rw (drained_refused rec op e) (drained-run rec ops e)

-- A later row of the same residency
pub record Advanced (rec later : ResidencyRecord) : Type 0 where
  pub agent : later.agent_slug ≡ rec.agent_slug
  pub org : later.org ≡ rec.org
  pub channel : later.channel_id ≡ rec.channel_id
  pub venue : later.venue_slug ≡ rec.venue_slug
  pub fence : rec.fence ≤ later.fence
  pub cursor : rec.cursor ≤ later.cursor

apply-Advanced :
    (rec next : ResidencyRecord) (op : ResidencyOp)
    → apply_residency_op rec op ≡ ok next
    → Advanced rec next
apply-Advanced rec next op h =
    let (legal, agent, org, channel, venue, fence, carried) = apply_sound rec next op h in
    record {
      agent = agent;
      org = org;
      channel = channel;
      venue = venue;
      fence = fence;
      cursor = ground (arith, apply-cursor rec next op h);
    }

step-Advanced :
    (rec : ResidencyRecord) (op : ResidencyOp)
    → Advanced rec (kept_or rec (apply_residency_op rec op))
step-Advanced rec op = go (apply_residency_op rec op) refl
  where
    go : (r : Transition) → apply_residency_op rec op ≡ r → Advanced rec (kept_or rec r)
    go (ok next) e = apply-Advanced rec next op e
    go (refuse r) e = record {
      agent = refl;
      org = refl;
      channel = refl;
      venue = refl;
      fence = omega arith;
      cursor = omega arith;
    }

-- Whatever operations a residency is asked to take, refused ones included, its identity stays, and
-- the fence and the cursor never go back.
pub run-Advanced : (rec : ResidencyRecord) (ops : List ResidencyOp) → Advanced rec (run rec ops)
unfolding run
run-Advanced rec [] = record {
  agent = refl;
  org = refl;
  channel = refl;
  venue = refl;
  fence = omega arith;
  cursor = omega arith;
}
run-Advanced rec (op ∷ ops) =
    let one = step-Advanced rec op in
    let rest = run-Advanced (kept_or rec (apply_residency_op rec op)) ops in
    record {
      agent = rest.agent ∙ one.agent;
      org = rest.org ∙ one.org;
      channel = rest.channel ∙ one.channel;
      venue = rest.venue ∙ one.venue;
      fence = omega (arith, one.fence, rest.fence);
      cursor = omega (arith, one.cursor, rest.cursor);
    }

-- A residency is activated once: while its row is live a claim is refused, whoever makes it.
claim-live :
    (rec : ResidencyRecord) (op : ResidencyOp)
    → op.kind ≡ claim
    → is_live rec.status ≡ true
    → apply_residency_op rec op ≡ refuse double_activation
unfolding apply_residency_op
claim-live rec op k live = rw k (rw live)

commit-session :
    (kind : OpKind) (rec next : ResidencyRecord) (op : ResidencyOp) (target : ResidencyState)
    → commit kind rec op target ≡ ok next
    → (next.session_id ≡ rec.session_id) ⊎ (kind ≡ claim)
unfolding commit
commit-session claim rec next op target h = inr refl
commit-session wake_seal rec next op target h = inl (ground arith)
commit-session kind rec next op target h = inl (ground arith)

-- The session is the life's: only a claim of an unseated row can change it, so a thaw resumes the
-- session that was stored.
apply-session :
    (rec next : ResidencyRecord) (op : ResidencyOp)
    → apply_residency_op rec op ≡ ok next
    → (next.session_id ≡ rec.session_id)
      ⊎ ((op.kind ≡ claim) × (rec.status ≡ unseated) × (next.status ≡ seated))
apply-session rec next op h =
    let a = apply-Accepted rec next op h in
    let legal = (apply_sound rec next op h).0 in
    elim (commit-session op.kind rec next op a.target a.committed) [
      | inl same ↦ inl same
      | inr k ↦ let c = legal_claim rec.status next.status (rw (← k) legal) in inr (k, c.0, c.1)
    ]

reserved_reap : (by : Option Actor) → wrong_actor reap by ≡ false → by ≡ some reaper
reserved_reap (some reaper) h = refl
reserved_reap by h = cc

legal_reap :
    (from to : ResidencyState)
    → legal_target from reap ≡ some to
    → (from ≡ hibernated) × (to ≡ unseated)
unfolding legal_target
legal_reap hibernated to h = (refl, cc)
legal_reap from to h = cc

-- Only the reaper reaps, and only a hibernated row, which becomes unseated.
apply-reap :
    (rec next : ResidencyRecord) (op : ResidencyOp)
    → apply_residency_op rec op ≡ ok next
    → op.kind ≡ reap
    → (op.by ≡ some reaper) × (rec.status ≡ hibernated) × (next.status ≡ unseated)
apply-reap rec next op h k =
    let a = apply-Accepted rec next op h in
    let c = legal_reap rec.status next.status (rw (← k) (apply_sound rec next op h).0) in
    (reserved_reap op.by (rw (← k) a.right_actor), c.0, c.1)

-- An operation that meets every guard is written.
accepts :
    (rec : ResidencyRecord) (op : ResidencyOp) (target : ResidencyState)
    → second_claim op.kind rec.status ≡ false
    → legal_target rec.status op.kind ≡ some target
    → wrong_actor op.kind op.by ≡ false
    → below op.fence rec.fence ≡ false
    → differs op.agent_slug rec.agent_slug ≡ false
    → differs op.org rec.org ≡ false
    → differs op.channel_id rec.channel_id ≡ false
    → dead_heartbeat op.kind op.cortex_alive ≡ false
    → apply_residency_op rec op ≡ commit op.kind rec op target
unfolding apply_residency_op
accepts rec op target h₁ h₂ h₃ h₄ h₅ h₆ h₇ h₈ =
    rw h₁ (rw (h₂, apply_residency_op) (rw (h₃, h₄, h₅, h₆, h₇, h₈)))

reap_legal : legal_target hibernated reap ≡ some unseated
unfolding legal_target
reap_legal = refl

reap_written :
    (rec : ResidencyRecord) (op : ResidencyOp)
    → op.fence ≡ none
    → commit reap rec op unseated ≡ ok (record rec { status = unseated })
unfolding commit
reap_written rec op f = rw f

-- The operation `reap` does not look at the lease: `reap_residency` refuses a hibernated row within
-- its lease, and the same row is unseated by the operation, with its host left in place.
reap_op_ignores_lease :
    (rec : ResidencyRecord) (op : ResidencyOp) (now : ℕ)
    → rec.status ≡ hibernated
    → now ≤ rec.lease_until
    → op.kind ≡ reap
    → op.by ≡ some reaper
    → op.fence ≡ none
    → op.agent_slug ≡ none
    → op.org ≡ none
    → op.channel_id ≡ none
    → (reap_residency rec now ≡ refuse illegal_transition)
      × (apply_residency_op rec op ≡ ok (record rec { status = unseated }))
unfolding reap_residency
reap_op_ignores_lease rec op now s early k by f a o c = (
  ground arith,
  accepts rec op unseated (rw k refl) (rw (s, k) reap_legal) (rw (k, by) refl) (rw f refl)
        (rw a refl) (rw o refl) (rw c refl) (rw k refl)
      ∙ simp k (reap_written rec op f),
)
