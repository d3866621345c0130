-- ===== src/Residency/Laws.antt =====
-- What one operation can do to a row.
use coltrane.Base.{
  or_else, ◌∙◌, ℕ, ◌+◌, ◌≤◌, String, ◌≡◌, refl, true, false, Option, none, some, ◌⊎◌, inl, inr, ◌≢◌,
  arith, ◌==◌, eq_iff, Option-cases,
}
use coltrane.Residency.{
  ResidencyState, OpKind, ResidencyRecord, ResidencyOp, ok, legal_target, apply_residency_op,
  commit, wrong_actor, below, differs, second_claim, dead_heartbeat, next_fence, wake_seal,
}

-- An operation that is accepted met every guard, and its result is the committed write.
pub record Accepted (rec : ResidencyRecord) (op : ResidencyOp) (next : ResidencyRecord)
    : Type 0 where
  pub target : ResidencyState
  pub is_legal : legal_target rec.status op.kind ≡ some target
  pub first_claim : second_claim op.kind rec.status ≡ false
  pub right_actor : wrong_actor op.kind op.by ≡ false
  pub current_fence : below op.fence rec.fence ≡ false
  pub same_agent : differs op.agent_slug rec.agent_slug ≡ false
  pub same_org : differs op.org rec.org ≡ false
  pub same_channel : differs op.channel_id rec.channel_id ≡ false
  pub alive : dead_heartbeat op.kind op.cortex_alive ≡ false
  pub committed : commit op.kind rec op target ≡ ok next

pub apply-Accepted :
    (rec next : ResidencyRecord) (op : ResidencyOp)
    → apply_residency_op rec op ≡ ok next
    → Accepted rec op next
unfolding apply_residency_op
apply-Accepted rec next op h = elim (Option-cases (legal_target rec.status op.kind)) [
  | inl e ↦ absurd (no_target e)
  | inr (target, e) ↦ record {
    target = target;
    is_legal = e;
    first_claim = ground arith;
    right_actor = ground arith;
    current_fence = ground arith;
    same_agent = ground arith;
    same_org = ground arith;
    same_channel = ground arith;
    alive = ground arith;
    committed = ground arith;
  }
]
  where
    no_target : legal_target rec.status op.kind ≡ none → ⊥
    no_target e = ground arith

-- What a committed write changes, and what it leaves.
record Written (rec : ResidencyRecord) (op : ResidencyOp) (target : ResidencyState)
    (next : ResidencyRecord) : Type 0 where
  pub status : next.status ≡ target
  pub agent : next.agent_slug ≡ rec.agent_slug
  pub org : next.org ≡ rec.org
  pub channel : next.channel_id ≡ rec.channel_id
  pub venue : next.venue_slug ≡ rec.venue_slug
  pub soul : next.soul_output_id ≡ rec.soul_output_id
  pub fence : next.fence ≡ next_fence op.fence rec.fence

commit-Written :
    (kind : OpKind) (rec next : ResidencyRecord) (op : ResidencyOp) (target : ResidencyState)
    → commit kind rec op target ≡ ok next
    → Written rec op target next
unfolding commit
commit-Written wake_seal rec next op target h = ground arith
commit-Written kind rec next op target h = ground arith

-- The cursor and the last seal move together, by one, or stay.
commit-cursor :
    (kind : OpKind) (rec next : ResidencyRecord) (op : ResidencyOp) (target : ResidencyState)
    → commit kind rec op target ≡ ok next
    → ((next.cursor ≡ rec.cursor) × (next.last_sealed_sha ≡ rec.last_sealed_sha))
      ⊎ ((sha : String) × (kind ≡ wake_seal)
          × (op.sealed_output_sha ≡ some sha)
          × (sha ≢ "")
          × (below op.message_index rec.cursor ≡ false)
          × (next.cursor ≡ rec.cursor + 1)
          × (next.last_sealed_sha ≡ some sha))
unfolding commit
commit-cursor wake_seal rec next op target h = elim (Option-cases op.sealed_output_sha) [
  | inl e ↦ absurd (unsealed e)
  | inr (sha, e) ↦ inr (
    sha,
    refl,
    e,
    λ empty. blank sha e ((eq_iff sha "").1 empty),
    ground arith,
    ground (arith, e),
    ground (arith, e),
  )
]
  where
    unsealed : op.sealed_output_sha ≡ none → ⊥
    unsealed e = ground arith

    blank : (sha : String) → op.sealed_output_sha ≡ some sha → (sha == "") ≡ true → ⊥
    blank sha e empty = ground arith
commit-cursor kind rec next op target h = inl (ground arith)

-- Every operation that is accepted follows the table of legal transitions, keeps the identity of the
-- residency, and never lowers the fence, which becomes the operation's where it carries one.
pub apply_sound :
    (rec next : ResidencyRecord) (op : ResidencyOp)
    → apply_residency_op rec op ≡ ok next
    → (legal_target rec.status op.kind ≡ some next.status)
      × (next.agent_slug ≡ rec.agent_slug)
      × (next.org ≡ rec.org)
      × (next.channel_id ≡ rec.channel_id)
      × (next.venue_slug ≡ rec.venue_slug)
      × (rec.fence ≤ next.fence)
      × (next.fence ≡ or_else op.fence rec.fence)
apply_sound rec next op h =
    let a = apply-Accepted rec next op h in
    let w = commit-Written op.kind rec next op a.target a.committed in
    (
      rw w.status a.is_legal,
      w.agent,
      w.org,
      w.channel,
      w.venue,
      rw w.fence (fence_up op.fence),
      w.fence ∙ fence_at op.fence a.current_fence,
    )
  where
    fence_up : (f : Option ℕ) → rec.fence ≤ next_fence f rec.fence
    fence_up none = omega arith
    fence_up (some m) = omega arith

    fence_at :
        (f : Option ℕ) → below f rec.fence ≡ false → next_fence f rec.fence ≡ or_else f rec.fence
    fence_at none h = refl
    fence_at (some n) h = ground (arith, h)

-- The cursor moves only by a wake that seals a non-empty hash of a message not yet consumed, then by
-- one, and the hash is recorded in the same write; otherwise cursor and last seal stay.
pub apply-cursor :
    (rec next : ResidencyRecord) (op : ResidencyOp)
    → apply_residency_op rec op ≡ ok next
    → ((next.cursor ≡ rec.cursor) × (next.last_sealed_sha ≡ rec.last_sealed_sha))
      ⊎ ((sha : String) × (op.kind ≡ wake_seal)
          × (op.sealed_output_sha ≡ some sha)
          × (sha ≢ "")
          × (below op.message_index rec.cursor ≡ false)
          × (next.cursor ≡ rec.cursor + 1)
          × (next.last_sealed_sha ≡ some sha))
apply-cursor rec next op h =
    let a = apply-Accepted rec next op h in commit-cursor op.kind rec next op a.target a.committed
