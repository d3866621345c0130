-- ===== src/TurnLoop/Histories.antt =====
-- The turns of src/turn_loop.ts: what each step keeps, the whole turn keeps, and how many rounds it takes.
use coltrane.Base.{
  ℕ, zero, suc, String, Bool, true, false, ◌≡◌, List, [], ◌∷◌, ◌++◌, map, Dict, subst,
}
use coltrane.TurnLoop.Messages.{
  ToolDef, ToolCall, ModelReply, Answer, replied, threw, Outcome, returned, raised, Money,
  TurnLoopOptions, Turn, TurnEvent, TurnResult,
}
use coltrane.TurnLoop.Hands.{offered_tools, collisions, run_call, run_calls}
use coltrane.TurnLoop.Rounds.{
  Step, stops, goes, request, replied_turn, go_on, after_calls, after_answer, take_round,
  take_rounds, follow, unless_shared, turn_after, turn_with,
}

pub returned-eq_returned {ℓ} : {A : Type ℓ} {a b : A} → returned a ≡ returned b → a ≡ b
returned-eq_returned h = cc

module _ {W USD : Type 0} (money : Money USD) (opts : TurnLoopOptions W USD)
    (offered : List ToolDef) (P : Turn W USD → Type 0)
    (asked : (t : Turn W USD)
      → P t
      → P (record t { world = (opts.port t.world (request money opts offered t.transcript)).0 }))
    (taken : (round : ℕ) (reply : ModelReply USD) (names : List String) (t : Turn W USD)
      → P t
      → P (replied_turn money opts offered round reply names t))
    (told : (t : Turn W USD) (events : List (TurnEvent USD))
      → P t
      → P (record t { events = t.events ++ events }))
    (called : (round : ℕ) (c : ToolCall) (t : Turn W USD)
      → P t
      → P (run_call opts.tools (map (λ d. d.name) offered) round c t)) where
  abbrev Holds : Step W USD → Type 0
  Holds (stops stop text error t) = P t
  Holds (goes t) = P t

  run_calls_keep :
      (round : ℕ) (cs : List ToolCall) (t : Turn W USD)
      → P t
      → P (run_calls opts.tools (map (λ d. d.name) offered) round cs t)
  unfolding run_calls
  run_calls_keep round [] t p = p
  run_calls_keep round (c ∷ cs) t p = run_calls_keep round cs _ (called round c t p)

  go_on_keeps :
      (round : ℕ) (reply : ModelReply USD) (cs : List ToolCall) (t : Turn W USD) (b : Bool)
      → P t
      → Holds (go_on money opts offered round reply cs t b)
  unfolding go_on
  go_on_keeps round reply cs t true p = told _ _ (taken round reply [] t p)
  go_on_keeps round reply cs t false p =
      told _ _ (run_calls_keep round cs _ (taken round reply _ t p))

  after_calls_keep :
      (round : ℕ) (reply : ModelReply USD) (cs : List ToolCall) (t : Turn W USD)
      → P t
      → Holds (after_calls money opts offered round reply cs t)
  unfolding after_calls
  after_calls_keep round reply [] t p = told _ _ (taken round reply [] t p)
  after_calls_keep round reply (c ∷ cs) t p = go_on_keeps round reply (c ∷ cs) t _ p

  after_answer_keeps :
      (round : ℕ) (a : Answer USD) (t : Turn W USD)
      → P t
      → Holds (after_answer money opts offered round t a)
  unfolding after_answer
  after_answer_keeps round (threw f) t p = p
  after_answer_keeps round (replied reply) t p = after_calls_keep round reply reply.tool_calls t p

  follow_keeps :
      (next : Turn W USD → TurnResult W USD)
      → ((t : Turn W USD) → P t → P (next t).turn)
      → (s : Step W USD) → Holds s
      → P (follow money opts offered next s).turn
  follow_keeps next keeps (stops stop text error t) p = p
  follow_keeps next keeps (goes t) p = keeps t p

  -- What each step of a round keeps, the loop keeps.
  pub take_rounds_keep :
      (left round : ℕ) (t : Turn W USD) → P t → P (take_rounds money opts offered left round t).turn
  unfolding take_rounds take_round
  take_rounds_keep zero round t p = p
  take_rounds_keep (suc left) round t p =
      follow_keeps (take_rounds money opts offered left (suc round))
        (λ t' p'. take_rounds_keep left (suc round) t' p') (take_round money opts offered round t)
        (after_answer_keeps round (opts.port t.world (request money opts offered t.transcript)).1 _
          (asked t p))

module _ {W USD : Type 0} (money : Money USD) (opts : TurnLoopOptions W USD)
    (P : Turn W USD → Type 0) (t : Turn W USD) where
  turn_with_keeps :
      (listed : List ToolDef) (shared : Dict (List String))
      → P t
      → P (take_rounds money opts (offered_tools opts.allow listed) opts.max_rounds 1 t).turn
      → P (unless_shared money opts t (offered_tools opts.allow listed) shared).turn
  turn_with_keeps listed [] p q = q
  turn_with_keeps listed (e ∷ shared) p q = p

  -- What holds before the first round and is kept by the rounds holds at the end of a turn.
  pub run_turn_keeps :
      (outcome : Outcome (List ToolDef)) {r : TurnResult W USD}
      → ((listed : List ToolDef)
          → P (take_rounds money opts (offered_tools opts.allow listed) opts.max_rounds 1 t).turn)
      → P t
      → turn_after money opts t outcome ≡ returned r
      → P r.turn
  unfolding turn_with
  run_turn_keeps (raised why) keeps p h = cc
  run_turn_keeps (returned listed) keeps p h =
      subst (λ x. P x.turn) (returned-eq_returned h)
        (turn_with_keeps listed (collisions opts.wire_name (offered_tools opts.allow listed)) p
          (keeps listed))
