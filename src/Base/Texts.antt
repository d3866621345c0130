-- ===== src/Base/Texts.antt =====
-- Texts: what the program does with them beside comparing them.
use Prim.Native.Char.{code}
use Prim.Native.Nat.{ℕ}
use Prim.Native.String.{String, ◌++◌}
use mathlib.Core.List.{List, [], ◌∷◌}
use mathlib.Core.Bool.{Bool, true, ◌&&◌, ◌||◌}
use coltrane.Base.Tests.{eqb, leb, if◌then◌else◌}

-- `s + t`
abbrev pub glue : String → String → String
glue s t = s ++ t

-- The white space and the line ends that `trim` removes.
abbrev pub is_trimmed : ℕ → Bool
is_trimmed c =
    (leb 9 c && leb c 13)
    || eqb c 32
    || eqb c 160
    || eqb c 5760
    || (leb 8192 c && leb c 8202)
    || eqb c 8232
    || eqb c 8233
    || eqb c 8239
    || eqb c 8287
    || eqb c 12288
    || eqb c 65279

-- `s.trim() === ""`
unfoldable pub is_blank : String → Bool
is_blank String.[] = true
is_blank (String.◌∷◌ c s) = is_trimmed (code c) && is_blank s

-- `s.trim()`
unfoldable pub trim_start : String → String
trim_start String.[] = String.[]
trim_start (String.◌∷◌ c s) =
    let rest = trim_start s in if is_trimmed (code c) then rest else String.◌∷◌ c s

unfoldable pub trim_end : String → String
unfolding is_blank
trim_end String.[] = String.[]
trim_end (String.◌∷◌ c s) =
    if is_blank (String.◌∷◌ c s) then String.[] else String.◌∷◌ c (trim_end s)

unfoldable pub trim : String → String
unfolding trim_start trim_end
trim s = trim_end (trim_start s)

-- The text up to the first line break, put before the other lines
abbrev pub before_lines : String → List String → List String
before_lines c [] = c ∷ []
before_lines c (l ∷ ls) = glue c l ∷ ls

-- `text.split("\n")`
unfoldable pub lines : String → List String
lines String.[] = "" ∷ []
lines (String.◌∷◌ c s) =
    let rest = lines s in
    if eqb (code c) 10 then "" ∷ rest else before_lines (String.◌∷◌ c String.[]) rest
