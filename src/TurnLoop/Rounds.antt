-- ===== src/TurnLoop/Rounds.antt =====
-- src/turn_loop.ts: a round, and the loop over the rounds.
use coltrane.Base.{
  ℕ, zero, suc, String, Bool, true, false, Option, none, some, List, [], ◌∷◌, ◌++◌, map, Dict,
  or_else, ltb, if◌then◌else◌,
}
use coltrane.TurnLoop.Messages.{
  ToolDef, ToolCall, TurnMessage, assistant, ModelRequest, ModelReply, Failure, Answer, replied,
  threw, Outcome, returned, raised, Money, TurnStop, done, round_limit, timeout, aborted,
  transport_failed, context_limit, tool_name_collision, RoundRecord, round_end, TurnError, upstream,
  wire_names_shared, TurnLoopOptions, Turn, TurnResult,
}
use coltrane.TurnLoop.Hands.{listed_tools, offered_tools, collisions, run_calls}
use coltrane.TurnLoop.Spend.{context_at, context_of, cost_of, count_round, no_totals, record_of}

-- `record.context_tokens > opts.max_context_tokens`, where both are there
abbrev pub exceeds : Option ℕ → Option ℕ → Bool
exceeds none context = false
exceeds (some ceiling) none = false
exceeds (some ceiling) (some context) = ltb ceiling context

-- Why a call that threw stops the turn
abbrev pub cause : Failure → TurnStop × Option TurnError
cause f =
    if f.aborted
    then (aborted, none)
    else if f.timed_out
    then (timeout, none)
    else (transport_failed, some (upstream f.message))

-- What the body of the loop does: it breaks, or goes on to the next round.
pub data Step (W USD : Type 0) : Type 0 where
  stops : TurnStop → String → Option TurnError → Turn W USD → Step W USD
  goes : Turn W USD → Step W USD

module _ {W USD : Type 0} (money : Money USD) (opts : TurnLoopOptions W USD)
    (offered : List ToolDef) where
  abbrev pub request : List TurnMessage → ModelRequest
  request transcript = record {
    model = opts.model;
    messages = transcript;
    tools = offered;
    max_tokens = opts.max_tokens;
    effort = opts.effort;
  }

  -- The turn with the reply appended and counted; `names` are the calls that the record lists.
  unfoldable pub replied_turn : ℕ → ModelReply USD → List String → Turn W USD → Turn W USD
  unfolding record_of count_round
  replied_turn round reply names t = record t {
    transcript = t.transcript ++ assistant reply.content reply.tool_calls reply.raw ∷ [];
    rounds = t.rounds ++ record_of money opts.prices round reply names ∷ [];
    totals = count_round money reply.usage (cost_of money opts.prices reply reply.usage) t.totals;
  }

  abbrev pub end_round : ℕ → RoundRecord USD → Turn W USD → Turn W USD
  end_round round r t = record t { events = t.events ++ round_end round r ∷ [] }

  -- What follows a reply with calls: they are run unless the context is over its ceiling. The code pushes
  -- the record before the calls and fills in their names as it makes them; nothing reads it in between.
  unfoldable pub go_on : ℕ → ModelReply USD → List ToolCall → Turn W USD → Bool → Step W USD
  unfolding replied_turn record_of run_calls
  go_on round reply calls t true =
      stops context_limit "" none (
        end_round round (record_of money opts.prices round reply [])
          (replied_turn round reply [] t))
  go_on round reply calls t false =
      let names = map (λ call. call.name) calls in
      goes (
        end_round round (record_of money opts.prices round reply names) (
          run_calls opts.tools (map (λ d. d.name) offered) round calls
            (replied_turn round reply names t)))

  unfoldable pub after_calls : ℕ → ModelReply USD → List ToolCall → Turn W USD → Step W USD
  unfolding replied_turn record_of go_on context_of
  after_calls round reply [] t =
      stops done (or_else reply.content "") none (
        end_round round (record_of money opts.prices round reply [])
          (replied_turn round reply [] t))
  after_calls round reply (c ∷ cs) t =
      go_on round reply (c ∷ cs) t (exceeds opts.max_context_tokens (context_at reply.usage))

  unfoldable pub after_answer : ℕ → Turn W USD → Answer USD → Step W USD
  unfolding after_calls
  after_answer round t (threw f) = let why = cause f in stops why.0 "" why.1 t
  after_answer round t (replied reply) = after_calls round reply reply.tool_calls t

  -- The body of the loop
  unfoldable pub take_round : ℕ → Turn W USD → Step W USD
  unfolding after_answer
  take_round round t =
      let answer = opts.port t.world (request t.transcript) in
      after_answer round (record t { world = answer.0 }) answer.1

  abbrev pub follow : (Turn W USD → TurnResult W USD) → Step W USD → TurnResult W USD
  follow next (stops stop text error t) = record {
    stop = stop;
    text = text;
    error = error;
    turn = t;
  }
  follow next (goes t) = next t

  -- The loop, with `left` rounds left, of which the next is number `round`
  unfoldable pub take_rounds : ℕ → ℕ → Turn W USD → TurnResult W USD
  unfolding take_round
  take_rounds zero round t = record { stop = round_limit; text = ""; error = none; turn = t }
  take_rounds (suc left) round t = follow (take_rounds left (suc round)) (take_round round t)

module _ {W USD : Type 0} (money : Money USD) (opts : TurnLoopOptions W USD) where
  unfoldable pub start : List TurnMessage → W → Turn W USD
  start messages w = record {
    transcript = messages;
    rounds = [];
    totals = no_totals money;
    events = [];
    world = w;
  }

  -- A turn whose tools share a wire name makes no call.
  abbrev pub unless_shared : Turn W USD → List ToolDef → Dict (List String) → TurnResult W USD
  unless_shared t offered [] = take_rounds money opts offered opts.max_rounds 1 t
  unless_shared t offered (e ∷ shared) = record {
    stop = tool_name_collision;
    text = "";
    error = some (wire_names_shared (e ∷ shared));
    turn = t;
  }

  -- The rest of `runTurn`, when the source has listed its tools
  unfoldable pub turn_with : Turn W USD → List ToolDef → TurnResult W USD
  unfolding collisions offered_tools
  turn_with t listed =
      let offered = offered_tools opts.allow listed in
      unless_shared t offered (collisions opts.wire_name offered)

  -- Nothing catches what the listing of the tools throws.
  abbrev pub turn_after : Turn W USD → Outcome (List ToolDef) → Outcome (TurnResult W USD)
  turn_after t (raised why) = raised why
  turn_after t (returned listed) = returned (turn_with t listed)

  -- `runTurn`
  unfoldable pub run_turn : List TurnMessage → W → Outcome (TurnResult W USD)
  unfolding start listed_tools turn_with
  run_turn messages w =
      let listed = listed_tools opts.tools w in turn_after (start messages listed.0) listed.1
