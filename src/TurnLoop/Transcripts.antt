-- ===== src/TurnLoop/Transcripts.antt =====
-- What a turn of src/turn_loop.ts adds to the transcript.
use mathlib.Core.List.{append-nil, append_assoc}
use coltrane.Base.{
  ℕ, zero, suc, String, Bool, true, false, ◌≡◌, refl, sym, ap, ◌∙◌, ◌⊎◌, inl, inr, subst, Option,
  List, [], ◌∷◌, ◌++◌, Dict,
}
use coltrane.Base.Json.{Json}
use coltrane.TurnLoop.Messages.{
  ToolDef, ToolCall, TurnMessage, assistant, tool, ModelReply, Answer, replied, threw, Outcome,
  returned, raised, Money, TurnStop, context_limit, TurnLoopOptions, Turn, TurnResult,
}
use coltrane.TurnLoop.Hands.{
  listed_tools, offered_tools, collisions, answer_call, run_call, run_calls,
}
use coltrane.TurnLoop.Spend.{context_at}
use coltrane.TurnLoop.Rounds.{
  Step, stops, goes, exceeds, request, replied_turn, go_on, after_calls, after_answer, take_round,
  take_rounds, follow, unless_shared, turn_after, turn_with, start, run_turn,
}
use coltrane.TurnLoop.Histories.{returned-eq_returned}

-- One tool message for each call, in the order of the calls
pub data Answers : List ToolCall → List TurnMessage → Type 0 where
  all_answered : Answers [] []
  one_answered :
      (c : ToolCall) (content : String) (is_error : Bool) {cs : List ToolCall}
      {ms : List TurnMessage}
      → Answers cs ms
      → Answers (c ∷ cs) (tool c.id c.name content is_error ∷ ms)

-- Assistant messages, each of them with the answers to its calls
pub data Exchanges : List TurnMessage → Type 0 where
  none_made : Exchanges []
  one_made :
      (content : Option String) (raw : Option Json) {cs : List ToolCall}
      {said ms : List TurnMessage}
      → Exchanges said
      → Answers cs ms
      → Exchanges (said ++ assistant content cs raw ∷ ms)

-- What `later` adds to `messages` is a run of exchanges.
abbrev pub Extends : List TurnMessage → List TurnMessage → Type 0
Extends messages later = (said : List TurnMessage) × (later ≡ messages ++ said) × Exchanges said

-- The same, but for one more assistant message, whose calls are not answered, when the context was over its
-- ceiling
abbrev pub Ends : List TurnMessage → TurnStop → List TurnMessage → Type 0
Ends messages stop later =
    Extends messages later
    ⊎ ((stop ≡ context_limit)
        × (before : List TurnMessage) × (content : Option String) × (calls : List ToolCall)
        × (raw : Option Json) × Extends messages before
        × (later ≡ before ++ assistant content calls raw ∷ []))

module _ {W USD : Type 0} (money : Money USD) (opts : TurnLoopOptions W USD)
    (offered : List ToolDef) (messages : List TurnMessage) where
  abbrev EndsStep : Step W USD → Type 0
  EndsStep (stops stop text error t) = Ends messages stop t.transcript
  EndsStep (goes t) = Extends messages t.transcript

  run_calls-Answers :
      (names : List String) (round : ℕ) (cs : List ToolCall) (t : Turn W USD)
      → (ms : List TurnMessage) × Answers cs ms
        × ((run_calls opts.tools names round cs t).transcript ≡ t.transcript ++ ms)
  unfolding run_calls run_call
  run_calls-Answers names round [] t = ([], all_answered, sym (append-nil t.transcript))
  run_calls-Answers names round (c ∷ cs) t =
      let reply = answer_call opts.tools names c t.world in
      let (ms, answers, same) =
        run_calls-Answers names round cs (run_call opts.tools names round c t) in
      (
        tool c.id c.name reply.1.0 reply.1.1 ∷ ms,
        one_answered c reply.1.0 reply.1.1 answers,
        same ∙ append_assoc t.transcript _ ms,
      )

  extended :
      (content : Option String) (raw : Option Json) (cs : List ToolCall)
      (ms before : List TurnMessage)
      → Answers cs ms
      → Extends messages before
      → Extends messages (before ++ assistant content cs raw ∷ ms)
  extended content raw cs ms before answers (said, same, made) = (
    said ++ assistant content cs raw ∷ ms,
    ap (λ b. b ++ assistant content cs raw ∷ ms) same ∙ append_assoc messages said _,
    one_made content raw made answers,
  )

  go_on-EndsStep :
      (round : ℕ) (reply : ModelReply USD) (t : Turn W USD) (b : Bool)
      → Extends messages t.transcript
      → EndsStep (go_on money opts offered round reply reply.tool_calls t b)
  unfolding go_on replied_turn
  go_on-EndsStep round reply t true x =
      inr (refl, t.transcript, reply.content, reply.tool_calls, reply.raw, x, refl)
  go_on-EndsStep round reply t false x =
      let (ms, answers, same) = run_calls-Answers _ round reply.tool_calls _ in
      subst (Extends messages) (sym (same ∙ append_assoc t.transcript _ ms))
        (extended reply.content reply.raw reply.tool_calls ms t.transcript answers x)

  after_calls-EndsStep :
      (round : ℕ) (reply : ModelReply USD) (cs : List ToolCall) (t : Turn W USD)
      → reply.tool_calls ≡ cs
      → Extends messages t.transcript
      → EndsStep (after_calls money opts offered round reply cs t)
  unfolding after_calls replied_turn
  after_calls-EndsStep round reply [] t h x = inl (
      subst (λ cs. Extends messages (t.transcript ++ assistant reply.content cs reply.raw ∷ []))
        (sym h) (extended reply.content reply.raw [] [] t.transcript all_answered x))
  after_calls-EndsStep round reply (c ∷ cs) t h x =
      let over = exceeds opts.max_context_tokens (context_at reply.usage) in
      subst (λ ds. EndsStep (go_on money opts offered round reply ds t over)) h
        (go_on-EndsStep round reply t over x)

  after_answer-EndsStep :
      (round : ℕ) (a : Answer USD) (t : Turn W USD)
      → Extends messages t.transcript
      → EndsStep (after_answer money opts offered round t a)
  unfolding after_answer
  after_answer-EndsStep round (threw f) t x = inl x
  after_answer-EndsStep round (replied reply) t x =
      after_calls-EndsStep round reply reply.tool_calls t refl x

  follow-Ends :
      (next : Turn W USD → TurnResult W USD)
      → ((t : Turn W USD)
          → Extends messages t.transcript
          → Ends messages (next t).stop (next t).turn.transcript)
      → (s : Step W USD) → EndsStep s
      → let r = follow money opts offered next s in Ends messages r.stop r.turn.transcript
  follow-Ends next later (stops stop text error t) x = x
  follow-Ends next later (goes t) x = later t x

  pub take_rounds-Ends :
      (left round : ℕ) (t : Turn W USD)
      → Extends messages t.transcript
      → let r = take_rounds money opts offered left round t in
        Ends messages r.stop r.turn.transcript
  unfolding take_rounds take_round
  take_rounds-Ends zero round t x = inl x
  take_rounds-Ends (suc left) round t x =
      follow-Ends (take_rounds money opts offered left (suc round))
        (λ t' y. take_rounds-Ends left (suc round) t' y) (take_round money opts offered round t)
        (after_answer-EndsStep round (opts.port t.world (request money opts offered t.transcript)).1
          _ x)

module _ {W USD : Type 0} (money : Money USD) (opts : TurnLoopOptions W USD)
    (messages : List TurnMessage) where
  abbrev EndsWell : TurnResult W USD → Type 0
  EndsWell r = Ends messages r.stop r.turn.transcript

  unless_shared-Ends :
      (t : Turn W USD) (offered : List ToolDef) (shared : Dict (List String))
      → Extends messages t.transcript
      → EndsWell (unless_shared money opts t offered shared)
  unless_shared-Ends t offered [] x =
      take_rounds-Ends money opts offered messages opts.max_rounds 1 t x
  unless_shared-Ends t offered (e ∷ shared) x = inl x

  turn_after-Ends :
      (t : Turn W USD) (outcome : Outcome (List ToolDef)) {r : TurnResult W USD}
      → Extends messages t.transcript
      → turn_after money opts t outcome ≡ returned r
      → EndsWell r
  unfolding turn_with
  turn_after-Ends t (raised why) x h = cc
  turn_after-Ends t (returned listed) x h = subst EndsWell (returned-eq_returned h) (
      unless_shared-Ends t (offered_tools opts.allow listed)
        (collisions opts.wire_name (offered_tools opts.allow listed)) x)

  -- The transcript of a turn begins with the messages that it was given. What follows is a run of
  -- assistant messages, each with a tool message for each of its calls in their order. Only a turn that
  -- stops at the context ceiling ends with an assistant message whose calls are not answered.
  pub run_turn-Ends :
      (w : W) (r : TurnResult W USD)
      → run_turn money opts messages w ≡ returned r
      → Ends messages r.stop r.turn.transcript
  unfolding run_turn start
  run_turn-Ends w r h =
      turn_after-Ends (start money opts messages (listed_tools opts.tools w).0)
        (listed_tools opts.tools w).1 ([], sym (append-nil messages), none_made) h
