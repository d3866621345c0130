-- ===== src/TurnLoop/Bounds.antt =====
-- How many rounds a turn of src/turn_loop.ts takes.
use coltrane.Base.{
  ℕ, zero, suc, ◌+◌, ◌≤◌, String, Bool, true, false, ◌≡◌, ◌≢◌, refl, ap, ◌∙◌, subst, List, [], ◌∷◌,
  Dict, length, length-append, arith,
}
use coltrane.TurnLoop.Messages.{
  ToolDef, ToolCall, TurnMessage, ModelReply, Failure, Answer, replied, threw, Outcome, returned,
  raised, Money, round_limit, TurnLoopOptions, Turn, TurnResult,
}
use coltrane.TurnLoop.Hands.{listed_tools, offered_tools, run_call, run_calls}
use coltrane.TurnLoop.Rounds.{
  Step, stops, goes, cause, replied_turn, go_on, after_calls, after_answer, take_round, take_rounds,
  follow, unless_shared, turn_after, turn_with, start, run_turn, request,
}
use coltrane.TurnLoop.Histories.{returned-eq_returned}

module _ {W USD : Type 0} (money : Money USD) (opts : TurnLoopOptions W USD)
    (offered : List ToolDef) where
  -- A round adds at most one record, and one when the loop goes on; no break is the limit of rounds.
  abbrev Grown : ℕ → Step W USD → Type 0
  Grown n (stops stop text error t) = (length t.rounds ≤ suc n) × (stop ≢ round_limit)
  Grown n (goes t) = length t.rounds ≡ suc n

  run_calls-rounds :
      (names : List String) (round : ℕ) (cs : List ToolCall) (t : Turn W USD)
      → (run_calls opts.tools names round cs t).rounds ≡ t.rounds
  unfolding run_calls run_call
  run_calls-rounds names round [] t = refl
  run_calls-rounds names round (c ∷ cs) t = run_calls-rounds names round cs _

  cause_ne : (f : Failure) → (cause f).0 ≢ round_limit
  cause_ne f h = ground (arith, h)

  replied_turn-rounds :
      (round : ℕ) (reply : ModelReply USD) (names : List String) (t : Turn W USD)
      → length (replied_turn money opts offered round reply names t).rounds ≡ suc (length t.rounds)
  unfolding replied_turn
  replied_turn-rounds round reply names t = length-append t.rounds _ ∙ omega arith

  go_on-Grown :
      (round : ℕ) (reply : ModelReply USD) (cs : List ToolCall) (t : Turn W USD) (b : Bool)
      → Grown (length t.rounds) (go_on money opts offered round reply cs t b)
  unfolding go_on
  go_on-Grown round reply cs t true =
      let one = replied_turn-rounds round reply [] t in (omega (arith, one), λ h. cc)
  go_on-Grown round reply cs t false =
      ap length (run_calls-rounds _ round cs _) ∙ replied_turn-rounds round reply _ t

  after_calls-Grown :
      (round : ℕ) (reply : ModelReply USD) (cs : List ToolCall) (t : Turn W USD)
      → Grown (length t.rounds) (after_calls money opts offered round reply cs t)
  unfolding after_calls
  after_calls-Grown round reply [] t =
      let one = replied_turn-rounds round reply [] t in (omega (arith, one), λ h. cc)
  after_calls-Grown round reply (c ∷ cs) t = go_on-Grown round reply (c ∷ cs) t _

  after_answer-Grown :
      (round : ℕ) (a : Answer USD) (t : Turn W USD)
      → Grown (length t.rounds) (after_answer money opts offered round t a)
  unfolding after_answer
  after_answer-Grown round (threw f) t = (omega arith, cause_ne f)
  after_answer-Grown round (replied reply) t = after_calls-Grown round reply reply.tool_calls t

  abbrev IsBounded : ℕ → TurnResult W USD → Type 0
  IsBounded n r = (length r.turn.rounds ≤ n) × (r.stop ≡ round_limit → length r.turn.rounds ≡ n)

  follow-IsBounded :
      (n left : ℕ) (next : Turn W USD → TurnResult W USD)
      → ((t : Turn W USD) → IsBounded (length t.rounds + left) (next t))
      → (s : Step W USD) → Grown n s
      → IsBounded (n + suc left) (follow money opts offered next s)
  follow-IsBounded n left next bound (stops stop text error t) g =
      let small = g.0 in (omega (arith, small), λ h. absurd (g.1 h))
  follow-IsBounded n left next bound (goes t) g =
      subst (λ m. IsBounded m (next t)) (ap (λ m. m + left) g ∙ omega arith) (bound t)

  pub take_rounds-IsBounded :
      (left round : ℕ) (t : Turn W USD)
      → IsBounded (length t.rounds + left) (take_rounds money opts offered left round t)
  unfolding take_rounds take_round
  take_rounds-IsBounded zero round t = (omega arith, λ h. omega arith)
  take_rounds-IsBounded (suc left) round t =
      follow-IsBounded (length t.rounds) left (take_rounds money opts offered left (suc round))
        (λ t'. take_rounds-IsBounded left (suc round) t') (take_round money opts offered round t)
        (after_answer-Grown round (opts.port t.world (request money opts offered t.transcript)).1 _)

module _ {W USD : Type 0} (money : Money USD) (opts : TurnLoopOptions W USD) where
  unless_shared-IsBounded :
      (t : Turn W USD) (listed : List ToolDef) (shared : Dict (List String))
      → t.rounds ≡ []
      → IsBounded money opts listed opts.max_rounds (unless_shared money opts t listed shared)
  unless_shared-IsBounded t listed [] h =
      subst (λ n. IsBounded money opts listed n (take_rounds money opts listed opts.max_rounds 1 t))
        (ap (λ rs. length rs + opts.max_rounds) h ∙ omega arith)
        (take_rounds-IsBounded money opts listed opts.max_rounds 1 t)
  unless_shared-IsBounded t listed (e ∷ shared) h =
      let none_taken = ap length h in (omega (arith, none_taken), λ same. cc)

  module _ (messages : List TurnMessage) (w : W) (r : TurnResult W USD) where
    turn_after-bound :
        (t : Turn W USD) (outcome : Outcome (List ToolDef))
        → t.rounds ≡ []
        → turn_after money opts t outcome ≡ returned r
        → (length r.turn.rounds ≤ opts.max_rounds)
          × (r.stop ≡ round_limit → length r.turn.rounds ≡ opts.max_rounds)
    unfolding turn_with
    turn_after-bound t (raised why) e h = cc
    turn_after-bound t (returned listed) e h =
        subst (IsBounded money opts listed opts.max_rounds) (returned-eq_returned h)
          (unless_shared-IsBounded t (offered_tools opts.allow listed) _ e)

    -- A turn has at most as many rounds as it may take, and stops at the limit only when it has had them all.
    pub run_turn_bound :
        run_turn money opts messages w ≡ returned r
        → (length r.turn.rounds ≤ opts.max_rounds)
          × (r.stop ≡ round_limit → length r.turn.rounds ≡ opts.max_rounds)
    unfolding run_turn start
    run_turn_bound h =
        turn_after-bound (start money opts messages (listed_tools opts.tools w).0)
          (listed_tools opts.tools w).1 refl h
