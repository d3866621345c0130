-- ===== src/TurnLoop/Accounts.antt =====
-- The totals of src/turn_loop.ts against the records of the rounds.
use coltrane.Base.{
  ℕ, ◌+◌, String, Bool, true, false, not, ◌&&◌, ◌≡◌, refl, sym, ap, ◌∙◌, Option, none, some, List,
  [], ◌∷◌, ◌++◌, length, arith, or_else, ltb, is_some, Dict, if◌then◌else◌, length-append,
  none-some,
}
use coltrane.TurnLoop.Messages.{
  TurnMessage, TurnUsage, ModelReply, returned, Money, ModelPrice, TurnLoopOptions, RoundRecord,
  TurnTotals, TurnResult,
}
use coltrane.TurnLoop.Hands.{listed_tools, run_call}
use coltrane.TurnLoop.Spend.{context_at, cost_of, record_of, count_round, no_totals}
use coltrane.TurnLoop.Rounds.{replied_turn, start, run_turn}
use coltrane.TurnLoop.Histories.{take_rounds_keep, run_turn_keeps}

module _ {USD : Type 0} where
  -- The sum of a measure over the rounds
  unfoldable pub sum_of : (RoundRecord USD → ℕ) → List (RoundRecord USD) → ℕ
  sum_of f [] = 0
  sum_of f (r ∷ rs) = f r + sum_of f rs

  -- The largest value of a measure over the rounds
  unfoldable pub largest : (RoundRecord USD → ℕ) → List (RoundRecord USD) → ℕ
  largest f [] = 0
  largest f (r ∷ rs) = if ltb (largest f rs) (f r) then f r else largest f rs

  sum_of-append :
      (f : RoundRecord USD → ℕ) (rs : List (RoundRecord USD)) (r : RoundRecord USD)
      → sum_of f (rs ++ r ∷ []) ≡ sum_of f rs + f r
  unfolding sum_of
  sum_of-append f [] r = omega arith
  sum_of-append f (s ∷ rs) r = let rest = sum_of-append f rs r in omega (arith, rest)

  sum_of-more :
      (f : RoundRecord USD → ℕ) (rs : List (RoundRecord USD)) (r : RoundRecord USD) {m n : ℕ}
      → n ≡ sum_of f rs
      → m ≡ n + f r
      → m ≡ sum_of f (rs ++ r ∷ [])
  sum_of-more f rs r h k = k ∙ (ap (λ i. i + f r) h ∙ sym (sum_of-append f rs r))

  largest-append :
      (f : RoundRecord USD → ℕ) (rs : List (RoundRecord USD)) (r : RoundRecord USD)
      → largest f (rs ++ r ∷ []) ≡ (if ltb (largest f rs) (f r) then f r else largest f rs)
  unfolding largest
  largest-append f [] r = refl
  largest-append f (s ∷ rs) r = ground (arith, largest-append f rs r)

-- What a round reports of one class of tokens; a class that it does not report counts for nothing.
abbrev pub tokens_at : (TurnUsage → Option ℕ) → Option TurnUsage → ℕ
tokens_at class none = 0
tokens_at class (some u) = or_else (class u) 0

abbrev pub one_if : Bool → ℕ
one_if true = 1
one_if false = 0

module _ {USD : Type 0} (money : Money USD) where
  abbrev pub pay : Option USD → USD → USD
  pay none spent = spent
  pay (some cost) spent = money.plus spent cost

  -- The costs of the priced rounds, added in their order
  unfoldable pub spend : USD → List (RoundRecord USD) → USD
  spend spent [] = spent
  spend spent (r ∷ rs) = spend (pay r.cost_usd spent) rs

  spend-append :
      (spent : USD) (rs : List (RoundRecord USD)) (r : RoundRecord USD)
      → spend spent (rs ++ r ∷ []) ≡ pay r.cost_usd (spend spent rs)
  unfolding spend
  spend-append spent [] r = refl
  spend-append spent (s ∷ rs) r = spend-append (pay s.cost_usd spent) rs r

  -- The totals are those of the records.
  pub record IsAccounted (rs : List (RoundRecord USD)) (t : TurnTotals USD) : Type 0 where
    pub rounds : t.rounds ≡ length rs
    pub input : t.input_tokens ≡ sum_of (λ r. tokens_at (λ u. u.input_tokens) r.usage) rs
    pub output : t.output_tokens ≡ sum_of (λ r. tokens_at (λ u. u.output_tokens) r.usage) rs
    pub cache_read :
        t.cache_read_tokens ≡ sum_of (λ r. tokens_at (λ u. u.cache_read_tokens) r.usage) rs
    pub cache_write :
        t.cache_write_tokens ≡ sum_of (λ r. tokens_at (λ u. u.cache_write_tokens) r.usage) rs
    pub cost : t.cost_usd ≡ spend money.nothing rs
    pub unpriced :
        t.unpriced_rounds ≡ sum_of (λ r. one_if (is_some r.usage && not (is_some r.cost_usd))) rs
    pub unreported : t.unreported_rounds ≡ sum_of (λ r. one_if (not (is_some r.usage))) rs
    pub peak : t.peak_context_tokens ≡ largest (λ r. or_else r.context_tokens 0) rs

  counted-IsAccounted :
      (usage : Option TurnUsage) (cost : Option USD) (round : ℕ) (model : Option String)
      (names : List String) (rs : List (RoundRecord USD)) (t : TurnTotals USD)
      → (usage ≡ none → cost ≡ none)
      → IsAccounted rs t
      → IsAccounted
          (rs
            ++ record {
              round = round;
              model = model;
              usage = usage;
              context_tokens = context_at usage;
              cost_usd = cost;
              tool_calls = names;
            }
              ∷ [])
          (count_round money usage cost t)
  unfolding count_round
  counted-IsAccounted none none round model names rs t only a = record {
    rounds = ap (λ n. n + 1) a.rounds ∙ sym (length-append rs _);
    input = sum_of-more _ rs _ a.input (omega arith);
    output = sum_of-more _ rs _ a.output (omega arith);
    cache_read = sum_of-more _ rs _ a.cache_read (omega arith);
    cache_write = sum_of-more _ rs _ a.cache_write (omega arith);
    cost = a.cost ∙ sym (spend-append money.nothing rs _);
    unpriced = sum_of-more _ rs _ a.unpriced (omega arith);
    unreported = sum_of-more _ rs _ a.unreported (omega arith);
    peak = rw largest-append (ground (arith, a.peak));
  }
  counted-IsAccounted none (some c) round model names rs t only a = none-some (sym (only refl))
  counted-IsAccounted (some u) none round model names rs t only a = record {
    rounds = ap (λ n. n + 1) a.rounds ∙ sym (length-append rs _);
    input = sum_of-more _ rs _ a.input (omega arith);
    output = sum_of-more _ rs _ a.output (omega arith);
    cache_read = sum_of-more _ rs _ a.cache_read (omega arith);
    cache_write = sum_of-more _ rs _ a.cache_write (omega arith);
    cost = a.cost ∙ sym (spend-append money.nothing rs _);
    unpriced = sum_of-more _ rs _ a.unpriced (omega arith);
    unreported = sum_of-more _ rs _ a.unreported (omega arith);
    peak = rw largest-append (ground (arith, a.peak));
  }
  counted-IsAccounted (some u) (some c) round model names rs t only a = record {
    rounds = ap (λ n. n + 1) a.rounds ∙ sym (length-append rs _);
    input = sum_of-more _ rs _ a.input (omega arith);
    output = sum_of-more _ rs _ a.output (omega arith);
    cache_read = sum_of-more _ rs _ a.cache_read (omega arith);
    cache_write = sum_of-more _ rs _ a.cache_write (omega arith);
    cost = ap (λ spent. money.plus spent c) a.cost ∙ sym (spend-append money.nothing rs _);
    unpriced = sum_of-more _ rs _ a.unpriced (omega arith);
    unreported = sum_of-more _ rs _ a.unreported (omega arith);
    peak = rw largest-append (ground (arith, a.peak));
  }

  cost_of-none :
      (prices : Option (Dict (ModelPrice USD))) (reply : ModelReply USD) (usage : Option TurnUsage)
      → usage ≡ none
      → cost_of money prices reply usage ≡ none
  unfolding cost_of
  cost_of-none prices reply none h = refl
  cost_of-none prices reply (some u) h = none-some (sym h)

  no_totals-IsAccounted : IsAccounted [] (no_totals money)
  unfolding sum_of spend largest
  no_totals-IsAccounted = record {
    rounds = refl;
    input = refl;
    output = refl;
    cache_read = refl;
    cache_write = refl;
    cost = refl;
    unpriced = refl;
    unreported = refl;
    peak = refl;
  }

module _ {W USD : Type 0} (money : Money USD) (opts : TurnLoopOptions W USD)
    (messages : List TurnMessage) (w : W) (r : TurnResult W USD) where
  -- However a turn ends, its totals are those of the records of its rounds: their number, the tokens of
  -- each class that they report, the cost of those that are priced, added in their order, the number of
  -- those that report tokens and are not priced, the number of those that report none, and the largest
  -- context among them.
  pub run_turn-IsAccounted :
      run_turn money opts messages w ≡ returned r → IsAccounted money r.turn.rounds r.turn.totals
  unfolding run_turn start replied_turn record_of run_call
  run_turn-IsAccounted h =
      run_turn_keeps money opts (λ t. IsAccounted money t.rounds t.totals)
        (start money opts messages (listed_tools opts.tools w).0) (listed_tools opts.tools w).1
        (λ listed.
          take_rounds_keep money opts _ (λ t. IsAccounted money t.rounds t.totals) (λ t p. p)
            (λ round reply names t p.
              counted-IsAccounted money reply.usage (cost_of money opts.prices reply reply.usage)
                round reply.model names t.rounds t.totals
                (cost_of-none money opts.prices reply reply.usage) p)
            (λ t events p. p) (λ round c t p. p) opts.max_rounds 1 _ (no_totals-IsAccounted money))
        (no_totals-IsAccounted money) h
