-- ===== src/TurnLoop/Tests.antt =====
-- src/turn_loop.ts on small inputs: a model that calls a tool twice and then answers.
use coltrane.Base.{
  ℕ, ◌+◌, ◌*◌, ◌≤◌, String, true, false, ◌≡◌, refl, sym, subst, none, some, List, [], ◌∷◌, length,
  includes, keep, any, ◌==◌, eq_iff, arith, some-eq_some,
}
use coltrane.Base.Json.{null, str}
use coltrane.TurnLoop.Messages.{
  ToolDef, TurnMessage, user, ModelReply, TurnUsage, Answer, replied, returned, ToolSource, Money,
  done, round_limit, TurnLoopOptions, TurnResult,
}
use coltrane.TurnLoop.Hands.{is_allowed, matches, ends_in_star, listed_tools}
use coltrane.TurnLoop.Rounds.{run_turn, turn_with, take_rounds, start}
use coltrane.TurnLoop.Accounts.{IsAccounted, run_turn-IsAccounted}
use coltrane.TurnLoop.Bounds.{run_turn_bound}
use coltrane.TurnLoop.Reach.{run_turn-reach}
use coltrane.TurnLoop.Transcripts.{Ends, run_turn-Ends}

abbrev cents : Money ℕ
cents = record {
  nothing = 0;
  plus = λ a b. a + b;
  charge = λ tokens rate. tokens * rate;
  is_cost = λ cost. true;
}

abbrev tool_named : String → ToolDef
tool_named name = record { name = name; description = none; input_schema = null }

-- The world is the list of the calls that were made, the last first.
abbrev hands : ToolSource (List String)
hands = record {
  list = λ log. (log, returned (tool_named "read" ∷ tool_named "erase" ∷ []));
  call = λ log name args. (name ∷ log, returned (str "text"));
}

abbrev usage : ℕ → TurnUsage
usage n = record {
  input_tokens = some n;
  output_tokens = some 2;
  cache_read_tokens = none;
  cache_write_tokens = none;
}

abbrev asks_for : String → ModelReply ℕ
asks_for name = record {
  model = some "m";
  content = none;
  tool_calls = record { id = "c"; name = name; args = null } ∷ [];
  raw = none;
  usage = some (usage 5);
  cost_usd = none;
}

abbrev says : String → ModelReply ℕ
says text = record {
  model = none;
  content = some text;
  tool_calls = [];
  raw = none;
  usage = some (usage 9);
  cost_usd = some 7;
}

-- It asks to read, then to erase, and then answers.
abbrev reply_to : List TurnMessage → Answer ℕ
reply_to (m ∷ []) = replied (asks_for "read")
reply_to (m ∷ a ∷ t ∷ []) = replied (asks_for "erase")
reply_to ms = replied (says "so it is")

abbrev turn_options : TurnLoopOptions (List String) ℕ
turn_options = record {
  port = λ log q. (log, reply_to q.messages);
  model = "m";
  tools = some hands;
  allow = some ("read" ∷ []);
  max_rounds = 4;
  max_context_tokens = none;
  prices = none;
  max_tokens = none;
  effort = none;
  wire_name = none;
}

abbrev question : List TurnMessage
question = user "what does it say?" ∷ []

abbrev ended : TurnResult (List String) ℕ
ended =
    turn_with cents turn_options (start cents turn_options question [])
      (tool_named "read" ∷ tool_named "erase" ∷ [])

turn_of_three :
    (ended.stop ≡ done)
    × (ended.text ≡ "so it is")
    × (length ended.turn.rounds ≡ 3)
    × (ended.turn.world ≡ "read" ∷ [])
    × (ended.turn.totals.cost_usd ≡ 7)
    × (ended.turn.totals.unpriced_rounds ≡ 2)
    × (ended.turn.totals.peak_context_tokens ≡ 9)
unfolding turn_with take_rounds start includes keep any
turn_of_three = (refl, refl, refl, refl, refl, refl, refl)

run_turn-IsAccounted_example : IsAccounted cents ended.turn.rounds ended.turn.totals
unfolding run_turn listed_tools
run_turn-IsAccounted_example = run_turn-IsAccounted cents turn_options question [] ended refl

run_turn_bound_example :
    (length ended.turn.rounds ≤ 4) × (ended.stop ≡ round_limit → length ended.turn.rounds ≡ 4)
unfolding run_turn listed_tools
run_turn_bound_example = run_turn_bound cents turn_options question [] ended refl

run_turn-Ends_example : Ends question ended.stop ended.turn.transcript
unfolding run_turn listed_tools
run_turn-Ends_example = run_turn-Ends cents turn_options question [] ended refl

reads_only :
    (allow : List String) (log : List String) (name : String)
    → some ("read" ∷ []) ≡ some allow
    → is_allowed name allow ≡ true
    → includes "erase" log ≡ false
    → includes "erase" (name ∷ log) ≡ false
unfolding includes is_allowed matches ends_in_star any
reads_only allow log name a i q =
    let only : is_allowed name ("read" ∷ []) ≡ true =
      subst (λ names. is_allowed name names ≡ true) (sym (some-eq_some a)) i in
    let same : (name == "read") ≡ true = ground (arith, only) in
    subst (λ n. includes "erase" (n ∷ log) ≡ false) (sym ((eq_iff name "read").0 same)) q

run_turn-reach_example : includes "erase" ended.turn.world ≡ false
unfolding run_turn listed_tools includes
run_turn-reach_example =
    run_turn-reach cents turn_options (λ log. includes "erase" log ≡ false) (λ log q p. p)
      (λ source log s p. subst (λ x. includes "erase" (x.list log).0 ≡ false) (some-eq_some s) p)
      (λ source allow log name args s a i p.
        subst (λ x. includes "erase" (x.call log name args).0 ≡ false) (some-eq_some s)
          (reads_only allow log name a i p))
      question [] ended refl refl
