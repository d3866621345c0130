-- ===== src/Law/Syntax.antt =====
-- src/institution_enforcement.ts, `tokenize` and `parse`. A text is read by characters where the
-- source reads UTF-16 units: every test is on an ASCII character. `out_of_fuel` stands for a run
-- that did not end; Law/Termination.antt shows that `parse` never answers it.
use Prim.Native.Char.{Char, code}
use coltrane.Base.{
  ℕ, zero, suc, ◌+◌, String, Bool, true, false, ◌||◌, Option, none, some, List, [], ◌∷◌, eqb,
  if◌then◌else◌, length,
}

pub data Parsed {ℓ} (A : Type ℓ) : Type ℓ where
  ok : A → Parsed A
  parse_error : Parsed A
  out_of_fuel : Parsed A

-- What follows goes on from a result and passes over an end.
infixl 5 ◌>>=◌
abbrev pub ◌>>=◌ {ℓ κ} : {S : Type ℓ} {T : Type κ} → Parsed S → (S → Parsed T) → Parsed T
out_of_fuel >>= next = out_of_fuel
parse_error >>= next = parse_error
ok found >>= next = next found

pub data Token : Type 0 where
  open_paren close_paren : Token
  str sym : String → Token

mutual
  pub data SExpr : Type 0 where
    list : Items → SExpr
    sym : String → SExpr
    str : String → SExpr

  pub data Items : Type 0 where
    nil : Items
    cons : SExpr → Items → Items

-- space, tab, newline, carriage return
abbrev pub is_space : ℕ → Bool
is_space c = eqb c 32 || eqb c 9 || eqb c 10 || eqb c 13

abbrev pub is_delimiter : ℕ → Bool
is_delimiter c = eqb c b'(' || eqb c b')' || eqb c 34 || is_space c

abbrev pub before : Char → Option (String × String) → Option (String × String)
before c none = none
before c (some (t, rest)) = some (String.◌∷◌ c t, rest)

-- After an opening quote: the text up to the closing one, with escapes resolved, and what follows
-- it. The flag tells that the character before was a backslash that escapes this one; a backslash
-- at the end of the source escapes nothing, and the literal is unterminated there either way.
unfoldable pub read_text : Bool → String → Option (String × String)
read_text escaped String.[] = none
read_text true (String.◌∷◌ c s) = before c (read_text false s)
read_text false (String.◌∷◌ c s) =
    let escape = read_text true s in
    let plain = before c (read_text false s) in
    if eqb (code c) 34 then some (String.[], s) else if eqb (code c) 92 then escape else plain

-- A symbol runs up to the next delimiter.
unfoldable pub read_symbol : String → String × String
read_symbol String.[] = (String.[], String.[])
read_symbol (String.◌∷◌ c s) =
    let rest = read_symbol s in
    if is_delimiter (code c) then (String.[], String.◌∷◌ c s) else (String.◌∷◌ c rest.0, rest.1)

abbrev pub push : Token → Parsed (List Token) → Parsed (List Token)
push t ts = do rest ← ts; ok (t ∷ rest)

-- The `while (i < n)` loop.
unfoldable pub tokens_from : ℕ → String → Parsed (List Token)
tokens_from zero s = out_of_fuel
tokens_from (suc fuel) String.[] = ok []
tokens_from (suc fuel) (String.◌∷◌ c s) =
    let next = tokens_from fuel s in
    let after_text : Parsed (List Token) = elim (read_text false s) [
      | none ↦ parse_error
      | some (t, rest) ↦ push (str t) (tokens_from fuel rest)
    ] in
    let symbol = read_symbol (String.◌∷◌ c s) in
    let after_symbol = push (sym symbol.0) (tokens_from fuel symbol.1) in
    if is_space (code c)
    then next
    else if eqb (code c) b'('
    then push open_paren next
    else if eqb (code c) b')'
    then push close_paren next
    else if eqb (code c) 34
    then after_text
    else after_symbol

abbrev pub size : String → ℕ
size String.[] = 0
size (String.◌∷◌ c s) = suc (size s)

unfoldable pub tokenize : String → Parsed (List Token)
tokenize src = tokens_from (suc (size src)) src

unfoldable mutual
  -- `readExpr`
  pub read_expr : ℕ → List Token → Parsed (SExpr × List Token)
  read_expr zero toks = out_of_fuel
  read_expr (suc fuel) [] = parse_error
  read_expr (suc fuel) (open_paren ∷ toks) = do
    (items, rest) ← read_items fuel toks
    ok (list items, rest)
  read_expr (suc fuel) (close_paren ∷ toks) = parse_error
  read_expr (suc fuel) (str v ∷ toks) = ok (str v, toks)
  read_expr (suc fuel) (sym v ∷ toks) = ok (sym v, toks)

  -- its `while` loop, up to and with the closing parenthesis
  pub read_items : ℕ → List Token → Parsed (Items × List Token)
  read_items zero toks = out_of_fuel
  read_items (suc fuel) [] = parse_error
  read_items (suc fuel) (close_paren ∷ toks) = ok (nil, toks)
  read_items (suc fuel) (t ∷ toks) = do
    (item, rest) ← read_expr fuel (t ∷ toks)
    (items, rest') ← read_items fuel rest
    ok (cons item items, rest')

abbrev pub whole : SExpr × List Token → Parsed SExpr
whole (e, []) = ok e
whole (e, t ∷ toks) = parse_error

unfoldable pub read_all : List Token → Parsed SExpr
read_all toks = do read ← read_expr (suc (length toks + length toks)) toks; whole read

unfoldable pub parse : String → Parsed SExpr
parse src = do toks ← tokenize src; read_all toks
