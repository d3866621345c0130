-- ===== src/Law/Termination.antt =====
-- The fuel of `tokenize` and `parse` is enough for every text.
use Prim.Native.Char.{Char, code}
use coltrane.Base.{
  ℕ, zero, suc, ◌+◌, ◌≤◌, ◌<◌, String, ◌≡◌, ◌≢◌, refl, Bool, true, false, Option, none, some, List,
  [], ◌∷◌, eqb, if◌then◌else◌, length, arith, Bool-cases, some-eq_some, ap, inl, inr,
}
use coltrane.Law.Syntax.{
  Parsed, ok, parse_error, out_of_fuel, ◌>>=◌, Token, open_paren, close_paren, SExpr, read_expr,
  read_items, read_all, whole, tokens_from, tokenize, parse, read_text, read_symbol, size, push,
  before, is_space, is_delimiter,
}
use coltrane.Law.Reader.{read_expr-shorter}

>>=-ends {ℓ κ} :
    {A : Type ℓ} {B : Type κ} (m : Parsed A) (f : A → Parsed B)
    → m ≢ out_of_fuel
    → ((a : A) → m ≡ ok a → f a ≢ out_of_fuel)
    → (m >>= f) ≢ out_of_fuel
>>=-ends (ok a) f hm hf = hf a refl
>>=-ends parse_error f hm hf = λ e. cc
>>=-ends out_of_fuel f hm hf = absurd (hm refl)

mutual
  unfolding read_expr

  read_expr-ends :
      (fuel : ℕ) (toks : List Token)
      → length toks + length toks < fuel
      → read_expr fuel toks ≢ out_of_fuel
  read_expr-ends zero toks h = absurd (omega arith)
  read_expr-ends (suc fuel) [] h = λ e. cc
  read_expr-ends (suc fuel) (close_paren ∷ toks) h = λ e. cc
  read_expr-ends (suc fuel) (Token.sym v ∷ toks) h = λ e. cc
  read_expr-ends (suc fuel) (Token.str v ∷ toks) h = λ e. cc
  read_expr-ends (suc fuel) (open_paren ∷ toks) h =
      >>=-ends (read_items fuel toks) _ (read_items-ends fuel toks (omega arith)) (λ a s e. cc)

  read_items-ends :
      (fuel : ℕ) (toks : List Token)
      → suc (length toks + length toks) < fuel
      → read_items fuel toks ≢ out_of_fuel
  read_items-ends zero toks h = absurd (omega arith)
  read_items-ends (suc fuel) [] h = λ e. cc
  read_items-ends (suc fuel) (close_paren ∷ toks) h = λ e. cc
  read_items-ends (suc fuel) (t ∷ toks) h =
      >>=-ends (read_expr fuel (t ∷ toks)) _ (read_expr-ends fuel (t ∷ toks) (omega arith)) λ r s.
        >>=-ends (read_items fuel r.1) _
          (read_items-ends fuel r.1 (omega (arith, read_expr-shorter fuel (t ∷ toks) r.1 r.0 s)))
          (λ a s' e. cc)

whole-ends : (r : SExpr × List Token) → whole r ≢ out_of_fuel
whole-ends (e, []) = λ h. cc
whole-ends (e, t ∷ toks) = λ h. cc

read_all-ends : (toks : List Token) → read_all toks ≢ out_of_fuel
unfolding read_all
read_all-ends toks =
    >>=-ends (read_expr (suc (length toks + length toks)) toks) whole
      (read_expr-ends (suc (length toks + length toks)) toks (omega arith)) (λ r s. whole-ends r)

size-before :
    (c : Char) (o : Option (String × String)) (n : ℕ)
    → ((t rest : String) → o ≡ some (t, rest) → size rest < n)
    → (t rest : String) → before c o ≡ some (t, rest)
    → size rest < n
size-before c none n h t rest e = cc
size-before c (some (t', rest')) n h t rest e =
    rw (← ap (λ (p : String × String). p.1) (some-eq_some e)) (h t' rest' refl)

size-read_text :
    (escaped : Bool) (s t rest : String) → read_text escaped s ≡ some (t, rest) → size rest < size s
unfolding read_text
size-read_text true String.[] t rest h = cc
size-read_text false String.[] t rest h = cc
size-read_text true (String.◌∷◌ c s) t rest h =
    size-before c (read_text false s) (suc (size s))
      (λ t' rest' e. omega (arith, size-read_text false s t' rest' e)) t rest h
size-read_text false (String.◌∷◌ c s) t rest h = elim (Bool-cases (eqb (code c) 34)) [
  | inl quote ↦
      rw (← ap (λ (p : String × String). p.1) (some-eq_some (rw quote at h))) (omega arith)
  | inr other ↦ elim (Bool-cases (eqb (code c) 92)) [
    | inl slash ↦ omega (arith, size-read_text true s t rest (rw (other, slash) at h))
    | inr plain ↦
        size-before c (read_text false s) (suc (size s))
          (λ t' rest' e. omega (arith, size-read_text false s t' rest' e)) t rest
          (rw (other, plain) at h)
  ]
]

size-read_symbol : (s : String) → size (read_symbol s).1 ≤ size s
unfolding read_symbol
size-read_symbol String.[] = omega arith
size-read_symbol (String.◌∷◌ c s) = ground (arith, size-read_symbol s)

push-ends : (t : Token) (ts : Parsed (List Token)) → ts ≢ out_of_fuel → push t ts ≢ out_of_fuel
push-ends t ts h = >>=-ends ts (λ ts'. ok (t ∷ ts')) h (λ a s e. cc)

if-ends {ℓ} :
    {A : Type ℓ} (b : Bool) (x y : Parsed A)
    → (b ≡ true → x ≢ out_of_fuel)
    → (b ≡ false → y ≢ out_of_fuel)
    → (if b then x else y) ≢ out_of_fuel
if-ends true x y hx hy = hx refl
if-ends false x y hx hy = hy refl

-- A symbol that starts with no delimiter takes at least a character.
size-read_symbol_lt :
    (c : Char) (s : String)
    → is_delimiter (code c) ≡ false
    → size (read_symbol (String.◌∷◌ c s)).1 ≤ size s
unfolding read_symbol
size-read_symbol_lt c s h = rw h (size-read_symbol s)

not_delimiter :
    (n : ℕ)
    → is_space n ≡ false
    → eqb n b'(' ≡ false
    → eqb n b')' ≡ false
    → eqb n 34 ≡ false
    → is_delimiter n ≡ false
not_delimiter n h₁ h₂ h₃ h₄ = rw (h₂, h₃, h₄) h₁

text-ends :
    (fuel : ℕ) (r : Option (String × String))
    → ((t rest : String) → r ≡ some (t, rest) → tokens_from fuel rest ≢ out_of_fuel)
    → elim r as (λ x. Parsed (List Token)) [
      | none ↦ parse_error
      | some (t, rest) ↦ push (Token.str t) (tokens_from fuel rest)
    ]
      ≢ out_of_fuel
text-ends fuel none h = λ x. cc
text-ends fuel (some (t, rest)) h = push-ends (Token.str t) (tokens_from fuel rest) (h t rest refl)

tokens_from-ends : (fuel : ℕ) (s : String) → size s < fuel → tokens_from fuel s ≢ out_of_fuel
unfolding tokens_from
tokens_from-ends zero s h = absurd (omega arith)
tokens_from-ends (suc fuel) String.[] h = λ e. cc
tokens_from-ends (suc fuel) (String.◌∷◌ c s) h =
    let next : tokens_from fuel s ≢ out_of_fuel = tokens_from-ends fuel s (omega arith) in
    if-ends (is_space (code c)) _ _ (λ sp. next)
      λ sp.
        if-ends (eqb (code c) b'(') _ _ (λ op. push-ends open_paren (tokens_from fuel s) next)
          λ op.
            if-ends (eqb (code c) b')') _ _ (λ cl. push-ends close_paren (tokens_from fuel s) next)
              λ cl.
                if-ends (eqb (code c) 34) _ _
                  (λ q. text-ends fuel (read_text false s) λ t rest e.
                    tokens_from-ends fuel rest (omega (arith, size-read_text false s t rest e)))
                  λ q. push-ends _ _ (
                    tokens_from-ends fuel (read_symbol (String.◌∷◌ c s)).1
                      (omega (arith, size-read_symbol_lt c s (not_delimiter (code c) sp op cl q))))

-- Parsing ends for every text: with the fuel that it takes it answers an expression or an error.
pub parse-ends : (src : String) → parse src ≢ out_of_fuel
unfolding parse tokenize
parse-ends src =
    >>=-ends (tokens_from (suc (size src)) src) read_all
      (tokens_from-ends (suc (size src)) src (omega arith)) (λ toks e. read_all-ends toks)
