-- ===== src/Composition/Chairs.antt =====
-- The checks of one chair in src/composition.ts, and of the roles across the phases.
use Prim.Native.Char.{code}
use coltrane.Base.{
  ℕ, String, Bool, true, false, not, ◌&&◌, ◌||◌, Option, none, some, List, [], ◌∷◌, ◌++◌, map, keep,
  any, includes, Dict, ltb, leb, eqb, length, trim, ◌==◌, if◌then◌else◌,
}
use coltrane.FanOut.Records.{FanOut}
use coltrane.GigConformance.{core_types}
use coltrane.Composition.Syntax.{
  of_institution, of_gig, HydrationSlot, Agent, Chair, PhaseDef, Check, unless, and_then,
  each_passes, agent_by_slug, empty_phase, role_twice_in_phase, role_twice, primes_another_area,
  splits_no_input, human_fan_out, no_primer_slug, unknown_agent, missing_skill, dead_slot,
  omits_required_input, feeds_undeclared, reaches_no_tool, promises_nothing, no_such_output,
  no_such_input, skill_promises_many, human_promises_many,
}

abbrev is_slug_char : ℕ → Bool
is_slug_char c = (leb 97 c && leb c 122) || (leb 48 c && leb c 57)

-- `/^[a-z0-9]+(?:-[a-z0-9]+)*$/`, where `begun` says that the last segment has a character
unfoldable is_slug_from : Bool → String → Bool
is_slug_from begun String.[] = begun
is_slug_from begun (String.◌∷◌ c s) = elim (is_slug_char (code c)) [
  | true ↦ is_slug_from true s
  | false ↦ begun && (eqb (code c) 45 && is_slug_from false s)
]

unfoldable pub is_slug : String → Bool
unfolding is_slug_from
is_slug s = is_slug_from false s

abbrev pub is_skill_chair : Chair → Bool
is_skill_chair ch = not (ch.skill_slug == "") && ch.agent_slug == ""

abbrev pub is_human_chair : Chair → Bool
is_human_chair ch = ch.human && (ch.agent_slug == "" && ch.skill_slug == "")

abbrev same_area : Option String → Option String → Bool
same_area (some primed) (some forked) = primed == forked
same_area _ _ = true

abbrev slug_or_none : Option String → Bool
slug_or_none none = true
slug_or_none (some s) = is_slug s

-- The types that a chair splits, each of which it must take in
unfoldable split_types : Option FanOut → List String
split_types none = []
split_types (some fan) = fan.over.kind ∷ map (λ j. j.kind) fan.join

abbrev fans_out : Option FanOut → Bool
fans_out none = false
fans_out (some fan) = true

-- The skills that an agent holds, by slug or on its own record
unfoldable pub declared_skills : Agent → List String
declared_skills ag = ag.skill_slugs ++ map (λ s. s.slug) ag.skills

-- A slot that the institution must fill and this chair does not
abbrev is_dead : Chair → String → HydrationSlot → Bool
is_dead ch slot spec = elim spec.binding [
  | of_institution ↦ spec.required && not (includes slot ch.supplies)
  | of_gig ↦ false
]

unfoldable slots_filled : Chair → Dict HydrationSlot → Check
slots_filled ch [] = none
slots_filled ch ((slot, spec) ∷ more) =
    and_then (unless (not (is_dead ch slot spec)) (dead_slot ch.role slot)) (slots_filled ch more)

-- An exact match, or a core type under which the fed type could resolve
abbrev pub declares_input : Agent → String → Bool
declares_input ag fed = any (λ t. t == fed || includes t core_types) ag.input_types

unfoldable before_paren : String → String
before_paren String.[] = String.[]
before_paren (String.◌∷◌ c s) =
    let rest = before_paren s in if eqb (code c) 40 then String.[] else String.◌∷◌ c rest

-- `toolBaseName` of src/tool_providers.ts: a scoped grant resolves on the name before its parenthesis.
unfoldable pub tool_base_name : String → String
unfolding before_paren trim
tool_base_name grant = trim (before_paren grant)

-- `seatEffectiveTools` of src/chart.ts, with no venue
unfoldable pub seat_effective_tools : Agent → Option (List String) → List String
seat_effective_tools ag none = ag.allowed_tools
seat_effective_tools ag (some ceiling) =
    keep (λ g. includes (tool_base_name g) (map tool_base_name ceiling)) ag.allowed_tools

-- A ceiling under which the agent's grants come to nothing
abbrev reaches_nothing : Agent → Option (List String) → Bool
reaches_nothing ag none = false
reaches_nothing ag (some ceiling) =
    ltb 0 (length ag.allowed_tools) && not (ltb 0 (length (seat_effective_tools ag (some ceiling))))

unfoldable pub agent_check : Chair → Option Agent → Check
unfolding declared_skills slots_filled seat_effective_tools
agent_check ch none = some (unknown_agent ch.role ch.agent_slug)
agent_check ch (some ag) =
    and_then
      (each_passes (λ sk. unless (includes sk (declared_skills ag)) (missing_skill ch.role sk))
        ch.required_skills)
      (and_then (each_passes (λ sk. slots_filled ch sk.hydration) ag.skills) (
        and_then
          (each_passes
            (λ req. unless (includes req ch.input_contract) (omits_required_input ch.role req))
            ag.required_inputs)
          (and_then
            (each_passes (λ fed. unless (declares_input ag fed) (feeds_undeclared ch.role fed))
              ch.input_contract)
            (unless (not (reaches_nothing ag ch.allowed_tools)) (reaches_no_tool ch.role)))))

-- What is checked of a chair, whatever backs it
unfoldable pub chair_check : List Agent → Chair → Check
unfolding split_types is_slug agent_check agent_by_slug
chair_check agents ch =
    and_then (unless (same_area ch.prime ch.fork_from) (primes_another_area ch.role)) (
      and_then
        (each_passes (λ t. unless (includes t ch.input_contract) (splits_no_input ch.role t))
          (split_types ch.fan_out))
        (and_then (unless (not (fans_out ch.fan_out && ch.human)) (human_fan_out ch.role)) (
          and_then (unless (slug_or_none ch.fork_from) (no_primer_slug ch.role)) (
            and_then
              (if is_skill_chair ch || is_human_chair ch
                then none
                else agent_check ch (agent_by_slug ch.agent_slug agents))
              (and_then (unless (ltb 0 (length ch.output_contract)) (promises_nothing ch.role)) (
                and_then
                  (each_passes
                    (λ o. unless (includes o ch.output_contract) (no_such_output ch.role o))
                    ch.optional_outputs)
                  (and_then
                    (each_passes
                      (λ o. unless (includes o ch.input_contract) (no_such_input ch.role o))
                      ch.optional_inputs)
                    (and_then
                      (unless (not (is_skill_chair ch && ltb 1 (length ch.output_contract)))
                        (skill_promises_many ch.role))
                      (unless (not (is_human_chair ch && ltb 1 (length ch.output_contract)))
                        (human_promises_many ch.role))))))))))

-- The chairs of a phase, where `within` and `seen` are the roles so far of the phase and of all phases
unfoldable pub chairs_check : List Agent → List String → List String → List Chair → Check
unfolding chair_check
chairs_check agents within seen [] = none
chairs_check agents within seen (ch ∷ chairs) =
    and_then (unless (not (includes ch.role within)) (role_twice_in_phase ch.role)) (
      and_then (unless (not (includes ch.role seen)) (role_twice ch.role)) (
        and_then (chair_check agents ch)
          (chairs_check agents (ch.role ∷ within) (ch.role ∷ seen) chairs)))

-- The roles of the chairs, in front of those seen before
unfoldable pub seen_after : List String → List Chair → List String
seen_after seen [] = seen
seen_after seen (ch ∷ chairs) = seen_after (ch.role ∷ seen) chairs

unfoldable pub phases_check : List Agent → List String → List PhaseDef → Check
unfolding chairs_check seen_after
phases_check agents seen [] = none
phases_check agents seen (p ∷ phases) =
    and_then (unless (ltb 0 (length p.chairs)) (empty_phase p.name)) (
      and_then (chairs_check agents [] seen p.chairs)
        (phases_check agents (seen_after seen p.chairs) phases))
