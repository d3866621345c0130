-- ===== src/TurnLoop/Reach.antt =====
-- Which tools a turn of src/turn_loop.ts can call.
use coltrane.Base.{
  String, true, ◌≡◌, refl, sym, Option, none, some, List, [], ◌∷◌, map, keep, includes, eq_iff,
  arith, Bool-cases, inl, inr, true-false,
}
use coltrane.Base.Json.{Json}
use coltrane.TurnLoop.Messages.{
  ToolDef, ToolCall, TurnMessage, ModelRequest, returned, Money, ToolSource, TurnLoopOptions,
  TurnResult,
}
use coltrane.TurnLoop.Hands.{
  listed_tools, is_allowed, offered_tools, call_tool, answer_call, run_call,
}
use coltrane.TurnLoop.Rounds.{replied_turn, start, run_turn}
use coltrane.TurnLoop.Histories.{take_rounds_keep, run_turn_keeps}

-- A name that an offered tool has is allowed.
kept-IsAllowed :
    (name : String) (allow : List String) (listed : List ToolDef)
    → includes name (map (λ d. d.name) (keep (λ t. is_allowed t.name allow) listed)) ≡ true
    → is_allowed name allow ≡ true
unfolding includes keep
kept-IsAllowed name allow [] h = true-false (sym h)
kept-IsAllowed name allow (d ∷ listed) h =
    ground (arith, h, eq_iff d.name name, kept-IsAllowed name allow listed)

module _ {W USD : Type 0} (money : Money USD) (opts : TurnLoopOptions W USD) (Q : W → Type 0)
    (asking : (w : W) (q : ModelRequest) → Q w → Q (opts.port w q).0)
    (listing : (source : ToolSource W) (w : W)
      → opts.tools ≡ some source
      → Q w
      → Q (source.list w).0)
    (calling : (source : ToolSource W) (allow : List String) (w : W) (name : String) (args : Json)
      → opts.tools ≡ some source
      → opts.allow ≡ some allow
      → is_allowed name allow ≡ true
      → Q w
      → Q (source.call w name args).0) where
  call_tool_keeps :
      (tools : Option (ToolSource W)) (allow : List String) (c : ToolCall) (w : W)
      → opts.tools ≡ tools
      → opts.allow ≡ some allow
      → is_allowed c.name allow ≡ true
      → Q w
      → Q (call_tool tools c w).0
  unfolding call_tool
  call_tool_keeps none allow c w t a i q = q
  call_tool_keeps (some source) allow c w t a i q = calling source allow w c.name c.args t a i q

  answer_call_keeps :
      (allow : Option (List String)) (listed : List ToolDef) (c : ToolCall) (w : W)
      → opts.allow ≡ allow
      → Q w
      → Q (answer_call opts.tools (map (λ d. d.name) (offered_tools allow listed)) c w).0
  unfolding answer_call offered_tools includes
  answer_call_keeps none listed c w a q = q
  answer_call_keeps (some allow) listed c w a q =
      elim (Bool-cases
        (includes c.name (map (λ d. d.name) (keep (λ t. is_allowed t.name allow) listed)))) [
          | inl e ↦
              rw e (
                call_tool_keeps opts.tools allow c w refl a (kept-IsAllowed c.name allow listed e)
                  q)
          | inr e ↦ rw e q
        ]

  listed_tools_keep :
      (tools : Option (ToolSource W)) (w : W)
      → opts.tools ≡ tools
      → Q w
      → Q (listed_tools tools w).0
  unfolding listed_tools
  listed_tools_keep none w t q = q
  listed_tools_keep (some source) w t q = listing source w t q

  -- Whatever holds of the world before a turn holds after it, when the model's port keeps it, the listing
  -- of the tools keeps it, and so does each call of a tool whose name an entry of the allow list matches: no
  -- other tool is called, and none at all without an allow list.
  pub run_turn-reach :
      (messages : List TurnMessage) (w : W) (r : TurnResult W USD)
      → Q w
      → run_turn money opts messages w ≡ returned r
      → Q r.turn.world
  unfolding run_turn start replied_turn run_call
  run_turn-reach messages w r q h =
      let begun = listed_tools_keep opts.tools w refl q in
      run_turn_keeps money opts (λ t. Q t.world)
        (start money opts messages (listed_tools opts.tools w).0) (listed_tools opts.tools w).1
        (λ listed.
          take_rounds_keep money opts _ (λ t. Q t.world) (λ t p. asking t.world _ p)
            (λ round reply names t p. p) (λ t events p. p)
            (λ round c t p. answer_call_keeps opts.allow listed c t.world refl p) opts.max_rounds 1
            _ begun)
        begun h
