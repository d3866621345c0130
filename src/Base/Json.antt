-- ===== src/Base/Json.antt =====
-- JSON values, as the program receives and stores them. A number is a natural here: the code that
-- is modelled only tests, stores and compares numbers.
use Prim.Native.Nat.{ℕ}
use Prim.Native.String.{String}
use mathlib.Core.Bool.{Bool, true, false}
use mathlib.Core.Option.{Option, none, some}
use mathlib.Core.List.{[], ◌∷◌}
use coltrane.Base.Dictionary.{Dict}

mutual
  pub data Json : Type 0 where
    null : Json
    bool : Bool → Json
    num : ℕ → Json
    str : String → Json
    arr : Items → Json
    obj : Fields → Json

  pub data Items : Type 0 where
    nil : Items
    cons : Json → Items → Items

  pub data Fields : Type 0 where
    end : Fields
    field : String → Json → Fields → Fields

-- The own enumerable keys of an object, with their values, in order.
abbrev pub entries : Fields → Dict Json
entries end = []
entries (field k v fs) = (k, v) ∷ entries fs

-- `typeof v === "string" ? v : d`
abbrev pub text_or : String → Option Json → String
text_or d (some (str s)) = s
text_or d _ = d

-- `typeof v === "string" ? v : null`
abbrev pub text_or_null : Option Json → Option String
text_or_null (some (str s)) = some s
text_or_null _ = none

-- `typeof v === "number" ? v : null`
abbrev pub number_or_null : Option Json → Option ℕ
number_or_null (some (num n)) = some n
number_or_null _ = none

-- `isRecord`: an object, neither null nor an array
abbrev is_record : Json → Bool
is_record (obj fs) = true
is_record _ = false
