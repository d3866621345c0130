-- ===== src/TurnLoop/Messages.antt =====
-- src/turn_loop.ts: what the loop is given, and what it hands on.
use coltrane.Base.{ℕ, String, Bool, Option, List, Dict}
use coltrane.Base.Json.{Json}

pub record ToolDef : Type 0 where
  pub name : String
  pub description : Option String
  pub input_schema : Json

pub record ToolCall : Type 0 where
  pub id : String
  pub name : String
  pub args : Json

pub data TurnMessage : Type 0 where
  system user : String → TurnMessage
  assistant : Option String → List ToolCall → Option Json → TurnMessage
  tool : String → String → String → Bool → TurnMessage

pub record TurnUsage : Type 0 where
  pub input_tokens : Option ℕ
  pub output_tokens : Option ℕ
  pub cache_read_tokens : Option ℕ
  pub cache_write_tokens : Option ℕ

pub record ModelRequest : Type 0 where
  pub model : String
  pub messages : List TurnMessage
  pub tools : List ToolDef
  pub max_tokens : Option ℕ
  pub effort : Option String

pub record ModelReply (USD : Type 0) : Type 0 where
  pub model : Option String
  pub content : Option String
  pub tool_calls : List ToolCall
  pub raw : Option Json
  pub usage : Option TurnUsage
  pub cost_usd : Option USD

-- A call that threw: what it said, and whether the caller's signal was aborted and the timer had fired
pub record Failure : Type 0 where
  pub aborted : Bool
  pub timed_out : Bool
  pub message : String

pub data Answer (USD : Type 0) : Type 0 where
  replied : ModelReply USD → Answer USD
  threw : Failure → Answer USD

-- A promise of the source's, settled
pub data Outcome {ℓ} (A : Type ℓ) : Type ℓ where
  returned : A → Outcome A
  raised : String → Outcome A

pub record ToolSource (W : Type 0) : Type 0 where
  pub list : W → W × Outcome (List ToolDef)
  pub call : W → String → Json → W × Outcome Json

-- The engine's arithmetic on prices: `(tokens * rate) / 1_000_000`, and the test that a reported cost is a
-- finite number and not negative
pub record Money (USD : Type 0) : Type 0 where
  pub nothing : USD
  pub plus : USD → USD → USD
  pub charge : ℕ → USD → USD
  pub is_cost : USD → Bool

pub record ModelPrice (USD : Type 0) : Type 0 where
  pub input : USD
  pub output : USD
  pub cache_read : Option USD
  pub cache_write : Option USD

pub data TurnStop : Type 0 where
  done round_limit timeout aborted transport_failed context_limit tool_name_collision : TurnStop

pub record RoundRecord (USD : Type 0) : Type 0 where
  pub round : ℕ
  pub model : Option String
  pub usage : Option TurnUsage
  pub context_tokens : Option ℕ
  pub cost_usd : Option USD
  pub tool_calls : List String

pub record TurnTotals (USD : Type 0) : Type 0 where
  pub rounds : ℕ
  pub input_tokens : ℕ
  pub output_tokens : ℕ
  pub cache_read_tokens : ℕ
  pub cache_write_tokens : ℕ
  pub cost_usd : USD
  pub unpriced_rounds : ℕ
  pub unreported_rounds : ℕ
  pub peak_context_tokens : ℕ

pub data TurnEvent (USD : Type 0) : Type 0 where
  tool_use : ℕ → String → Json → TurnEvent USD
  tool_result : ℕ → String → Bool → TurnEvent USD
  round_end : ℕ → RoundRecord USD → TurnEvent USD

pub record TurnLoopOptions (W USD : Type 0) : Type 0 where
  pub port : W → ModelRequest → W × Answer USD
  pub model : String
  pub tools : Option (ToolSource W)
  pub allow : Option (List String)
  pub max_rounds : ℕ
  pub max_context_tokens : Option ℕ
  pub prices : Option (Dict (ModelPrice USD))
  pub max_tokens : Option ℕ
  pub effort : Option String
  pub wire_name : Option (String → String)

-- What the loop keeps from round to round; `events` are those that `onEvent` was told, in order.
pub record Turn (W USD : Type 0) : Type 0 where
  pub transcript : List TurnMessage
  pub rounds : List (RoundRecord USD)
  pub totals : TurnTotals USD
  pub events : List (TurnEvent USD)
  pub world : W

-- What an error text of the loop tells
pub data TurnError : Type 0 where
  upstream : String → TurnError
  wire_names_shared : Dict (List String) → TurnError

pub record TurnResult (W USD : Type 0) : Type 0 where
  pub stop : TurnStop
  pub text : String
  pub error : Option TurnError
  pub turn : Turn W USD
