-- ===== src/Canonical/Printing.antt =====
-- `JSON.stringify` of a value with no space argument, in front of what follows it.
mod Readings
pub mod Injective
mod Characters
pub mod Lines
use Prim.Native.Char.{Char, code}
use Prim.Native.Nat.{◌/◌}
use coltrane.Base.{ℕ, zero, suc, ◌%◌, String, Bool, true, false, eqb, ltb, leb, if◌then◌else◌}
use coltrane.Base.Json.{Json, Items, Fields, null, bool, num, str, arr, obj, nil, cons, end, field}

infixr 67 ◌∹◌
abbrev pub ◌∹◌ : Char → String → String
c ∹ s = String.◌∷◌ c s

-- The digit of a number below 16
unfoldable pub digit : ℕ → Char
digit n =
    if eqb n 0
    then "0"
    else if eqb n 1
    then "1"
    else if eqb n 2
    then "2"
    else if eqb n 3
    then "3"
    else if eqb n 4
    then "4"
    else if eqb n 5
    then "5"
    else if eqb n 6
    then "6"
    else if eqb n 7
    then "7"
    else if eqb n 8
    then "8"
    else if eqb n 9
    then "9"
    else if eqb n 10
    then "a"
    else if eqb n 11
    then "b"
    else if eqb n 12
    then "c"
    else if eqb n 13
    then "d"
    else if eqb n 14
    then "e"
    else "f"

-- The decimal digits of `n`. A number has at most as many digits as its value and one more, so that
-- it is its own fuel.
unfoldable pub decimal : ℕ → ℕ → String → String
unfolding digit
decimal zero n rest = digit n ∹ rest
decimal (suc f) n rest = elim (ltb n 10) [
  | true ↦ digit n ∹ rest
  | false ↦ decimal f (n / 10) (digit (n % 10) ∹ rest)
]

-- A character inside a quoted text
unfoldable pub escaped : Char → String → String
unfolding digit
escaped c rest =
    if eqb (code c) 34
    then "\\" ∹ "\"" ∹ rest
    else if eqb (code c) 92
    then "\\" ∹ "\\" ∹ rest
    else if eqb (code c) 8
    then "\\" ∹ "b" ∹ rest
    else if eqb (code c) 9
    then "\\" ∹ "t" ∹ rest
    else if eqb (code c) 10
    then "\\" ∹ "n" ∹ rest
    else if eqb (code c) 12
    then "\\" ∹ "f" ∹ rest
    else if eqb (code c) 13
    then "\\" ∹ "r" ∹ rest
    else if ltb (code c) 32
    then "\\" ∹ "u" ∹ "0" ∹ "0" ∹ digit (code c / 16) ∹ digit (code c % 16) ∹ rest
    else c ∹ rest

unfoldable pub escape_all : String → String → String
unfolding escaped
escape_all String.[] rest = "\"" ∹ rest
escape_all (String.◌∷◌ c s) rest = escaped c (escape_all s rest)

unfoldable pub quoted : String → String → String
unfolding escape_all
quoted s rest = "\"" ∹ escape_all s rest

unfoldable mutual
  unfolding decimal quoted

  pub print : Json → String → String
  print null rest = "n" ∹ "u" ∹ "l" ∹ "l" ∹ rest
  print (bool true) rest = "t" ∹ "r" ∹ "u" ∹ "e" ∹ rest
  print (bool false) rest = "f" ∹ "a" ∹ "l" ∹ "s" ∹ "e" ∹ rest
  print (num n) rest = decimal n n rest
  print (str s) rest = quoted s rest
  print (arr xs) rest = "[" ∹ print_items xs rest
  print (obj fs) rest = "{" ∹ print_fields fs rest

  pub print_items : Items → String → String
  print_items nil rest = "]" ∹ rest
  print_items (cons v xs) rest = print v (more_items xs rest)

  pub more_items : Items → String → String
  more_items nil rest = "]" ∹ rest
  more_items (cons v xs) rest = "," ∹ print v (more_items xs rest)

  pub print_fields : Fields → String → String
  print_fields end rest = "}" ∹ rest
  print_fields (field k v fs) rest = quoted k (":" ∹ print v (more_fields fs rest))

  pub more_fields : Fields → String → String
  more_fields end rest = "}" ∹ rest
  more_fields (field k v fs) rest = "," ∹ quoted k (":" ∹ print v (more_fields fs rest))

unfoldable pub stringify : Json → String
unfolding print
stringify v = print v ""
