-- ===== src/TurnLoop/Spend.antt =====
-- src/turn_loop.ts: what a round costs, its record, and the totals of the rounds.
use coltrane.Base.{
  ℕ, ◌+◌, String, true, false, Option, none, some, List, [], ◌∷◌, Dict, lookup, or_else, ltb, eqb,
  if◌then◌else◌,
}
use coltrane.TurnLoop.Messages.{TurnUsage, ModelReply, Money, ModelPrice, RoundRecord, TurnTotals}

-- `input + cache_read + cache_write`
unfoldable pub context_of : TurnUsage → ℕ
context_of u =
    or_else u.input_tokens 0 + or_else u.cache_read_tokens 0 + or_else u.cache_write_tokens 0

abbrev pub context_at : Option TurnUsage → Option ℕ
context_at none = none
context_at (some u) = some (context_of u)

module _ {USD : Type 0} (money : Money USD) where
  -- The loop of `priceRound` over the pairs of a token class and its rate
  unfoldable pub price_from : USD → List (Option ℕ × Option USD) → Option USD
  price_from cost [] = some cost
  price_from cost ((none, rate) ∷ more) = price_from cost more
  price_from cost ((some tokens, rate) ∷ more) = elim (eqb tokens 0) [
    | true ↦ price_from cost more
    | false ↦ elim rate [
      | none ↦ none
      | some r ↦ price_from (money.plus cost (money.charge tokens r)) more
    ]
  ]

  unfoldable pub price_at : TurnUsage → Option (ModelPrice USD) → Option USD
  unfolding price_from
  price_at u none = none
  price_at u (some p) = price_from money.nothing (
      (u.input_tokens, some p.input)
      ∷ (u.output_tokens, some p.output)
      ∷ (u.cache_read_tokens, p.cache_read)
      ∷ (u.cache_write_tokens, p.cache_write)
      ∷ [])

  -- `priceRound`
  unfoldable pub price_round :
      Option String → TurnUsage → Option (Dict (ModelPrice USD)) → Option USD
  unfolding price_at
  price_round none u prices = none
  price_round (some model) u none = none
  price_round (some model) u (some prices) = price_at u (lookup model prices)

  unfoldable pub reported_cost : Option USD → Option USD
  reported_cost none = none
  reported_cost (some cost) = if money.is_cost cost then some cost else none

  abbrev pub first_some : Option USD → Option USD → Option USD
  first_some none other = other
  first_some (some cost) other = some cost

  unfoldable pub cost_of :
      Option (Dict (ModelPrice USD)) → ModelReply USD → Option TurnUsage → Option USD
  unfolding reported_cost price_round
  cost_of prices reply none = none
  cost_of prices reply (some u) =
      first_some (reported_cost reply.cost_usd) (price_round reply.model u prices)

  -- The record of a round, with the names of the calls that it ran
  unfoldable pub record_of :
      Option (Dict (ModelPrice USD)) → ℕ → ModelReply USD → List String → RoundRecord USD
  unfolding cost_of context_of
  record_of prices round reply names = record {
    round = round;
    model = reply.model;
    usage = reply.usage;
    context_tokens = context_at reply.usage;
    cost_usd = cost_of prices reply reply.usage;
    tool_calls = names;
  }

  abbrev add_cost : Option USD → TurnTotals USD → TurnTotals USD
  add_cost none t = record t { unpriced_rounds = t.unpriced_rounds + 1 }
  add_cost (some cost) t = record t { cost_usd = money.plus t.cost_usd cost }

  abbrev add_usage : Option TurnUsage → Option USD → TurnTotals USD → TurnTotals USD
  add_usage none cost t = record t { unreported_rounds = t.unreported_rounds + 1 }
  add_usage (some u) cost t = add_cost cost (record t {
    input_tokens = t.input_tokens + or_else u.input_tokens 0;
    output_tokens = t.output_tokens + or_else u.output_tokens 0;
    cache_read_tokens = t.cache_read_tokens + or_else u.cache_read_tokens 0;
    cache_write_tokens = t.cache_write_tokens + or_else u.cache_write_tokens 0;
    peak_context_tokens =
        if ltb t.peak_context_tokens (context_of u) then context_of u else t.peak_context_tokens;
  })

  unfoldable pub count_round : Option TurnUsage → Option USD → TurnTotals USD → TurnTotals USD
  unfolding context_of
  count_round usage cost t =
      let counted = add_usage usage cost t in record counted { rounds = counted.rounds + 1 }

  abbrev pub no_totals : TurnTotals USD
  no_totals = record {
    rounds = 0;
    input_tokens = 0;
    output_tokens = 0;
    cache_read_tokens = 0;
    cache_write_tokens = 0;
    cost_usd = money.nothing;
    unpriced_rounds = 0;
    unreported_rounds = 0;
    peak_context_tokens = 0;
  }
