-- ===== src/TurnLoop/Hands.antt =====
-- src/turn_loop.ts: which tools a turn is offered, and the calls of them.
use Prim.Native.Char.{code}
use coltrane.Base.{
  ℕ, String, Bool, true, false, ◌&&◌, Option, none, some, List, [], ◌∷◌, ◌++◌, keep, any, includes,
  Dict, glue, ltb, eqb, length, ◌==◌, if◌then◌else◌,
}
use coltrane.Base.Json.{Json, str}
use coltrane.Canonical.Printing.{stringify}
use coltrane.TurnLoop.Messages.{
  ToolDef, ToolCall, tool, Outcome, returned, raised, ToolSource, Turn, tool_use, tool_result,
}

-- `pattern.endsWith("*")`
unfoldable pub ends_in_star : String → Bool
ends_in_star String.[] = false
ends_in_star (String.◌∷◌ c String.[]) = eqb (code c) 42
ends_in_star (String.◌∷◌ c (String.◌∷◌ d s)) = ends_in_star (String.◌∷◌ d s)

-- `pattern.slice(0, -1)`
unfoldable pub without_last : String → String
without_last String.[] = String.[]
without_last (String.◌∷◌ c String.[]) = String.[]
without_last (String.◌∷◌ c (String.◌∷◌ d s)) = String.◌∷◌ c (without_last (String.◌∷◌ d s))

-- `name.startsWith(prefix)`
unfoldable pub starts_with : String → String → Bool
starts_with String.[] name = true
starts_with (String.◌∷◌ c prefix) String.[] = false
starts_with (String.◌∷◌ c prefix) (String.◌∷◌ d name) =
    eqb (code c) (code d) && starts_with prefix name

unfoldable pub matches : String → String → Bool
unfolding ends_in_star without_last starts_with
matches name pattern =
    if ends_in_star pattern then starts_with (without_last pattern) name else name == pattern

-- `isAllowed`
unfoldable pub is_allowed : String → List String → Bool
unfolding matches
is_allowed name allow = any (λ pattern. matches name pattern) allow

-- `offered`, of the tools that the source lists
unfoldable pub offered_tools : Option (List String) → List ToolDef → List ToolDef
unfolding is_allowed
offered_tools none listed = []
offered_tools (some allow) listed = keep (λ t. is_allowed t.name allow) listed

-- `byWire`, with one more name under the wire name `w`
unfoldable pub add_name : String → String → Dict (List String) → Dict (List String)
add_name w name [] = (w, name ∷ []) ∷ []
add_name w name ((k, names) ∷ m) =
    let rest = add_name w name m in
    if k == w then (k, names ++ name ∷ []) ∷ m else (k, names) ∷ rest

unfoldable pub by_wire : (String → String) → Dict (List String) → List ToolDef → Dict (List String)
unfolding add_name
by_wire wire m [] = m
by_wire wire m (t ∷ offered) = by_wire wire (add_name (wire t.name) t.name m) offered

-- The wire names that several offered tools share, with the tools' names
unfoldable pub collisions : Option (String → String) → List ToolDef → Dict (List String)
unfolding by_wire
collisions none offered = []
collisions (some wire) offered = keep (λ e. ltb 1 (length e.1)) (by_wire wire [] offered)

abbrev pub not_offered : String → String
not_offered name = glue "tool \"" (glue name "\" was not offered to this turn and was not called")

-- The content of a tool message, and whether it is an error
abbrev pub heard : String → Outcome Json → String × Bool
heard name (returned (str s)) = (s, false)
heard name (returned v) = (stringify v, false)
heard name (raised why) = (glue "tool \"" (glue name (glue "\" failed: " why)), true)

module _ {W : Type 0} where
  unfoldable pub listed_tools : Option (ToolSource W) → W → W × Outcome (List ToolDef)
  listed_tools none w = (w, returned [])
  listed_tools (some source) w = source.list w

  unfoldable pub call_tool : Option (ToolSource W) → ToolCall → W → W × (String × Bool)
  call_tool none c w = (w, (not_offered c.name, true))
  call_tool (some source) c w =
      let reply = source.call w c.name c.args in (reply.0, heard c.name reply.1)

  unfoldable pub answer_call :
      Option (ToolSource W) → List String → ToolCall → W → W × (String × Bool)
  unfolding call_tool
  answer_call tools names c w =
      if includes c.name names then call_tool tools c w else (w, (not_offered c.name, true))

module _ {W USD : Type 0} (tools : Option (ToolSource W)) (names : List String) (round : ℕ) where
  unfoldable pub run_call : ToolCall → Turn W USD → Turn W USD
  unfolding answer_call
  run_call c t =
      let reply = answer_call tools names c t.world in
      record t {
        transcript = t.transcript ++ tool c.id c.name reply.1.0 reply.1.1 ∷ [];
        events = t.events ++ tool_use round c.name c.args ∷ tool_result round c.name reply.1.1 ∷ [];
        world = reply.0;
      }

  unfoldable pub run_calls : List ToolCall → Turn W USD → Turn W USD
  unfolding run_call
  run_calls [] t = t
  run_calls (c ∷ cs) t = run_calls cs (run_call c t)
