-- ===== src/Law/Reader.antt =====
-- The reader against a printer: what it reads is what was printed, and it always ends.
use coltrane.Base.{
  ℕ, zero, suc, ◌+◌, ◌≤◌, ◌<◌, max, ◌≡◌, ◌↔◌, refl, ap, ◌∙◌, List, [], ◌∷◌, length, arith,
}
use coltrane.Law.Syntax.{
  Parsed, ok, parse_error, out_of_fuel, ◌>>=◌, Token, open_paren, close_paren, SExpr, Items, list,
  nil, cons, read_expr, read_items, read_all, whole,
}

-- The tokens of an expression, before the tokens that follow it.
mutual
  pub print : SExpr → List Token → List Token
  print (list items) rest = open_paren ∷ print_items items rest
  print (SExpr.sym v) rest = Token.sym v ∷ rest
  print (SExpr.str v) rest = Token.str v ∷ rest

  print_items : Items → List Token → List Token
  print_items nil rest = close_paren ∷ rest
  print_items (cons e es) rest = print e (print_items es rest)

-- The fuel that reading it back takes.
mutual
  need : SExpr → ℕ
  need (list items) = suc (need_items items)
  need (SExpr.sym v) = 1
  need (SExpr.str v) = 1

  need_items : Items → ℕ
  need_items nil = 1
  need_items (cons e es) = suc (max (need e) (need_items es))

mutual
  unfolding read_expr print need

  -- Reading what was printed gives the expression, and leaves what followed it.
  read_expr-print :
      (fuel : ℕ) (e : SExpr) (rest : List Token)
      → need e ≤ fuel
      → read_expr fuel (print e rest) ≡ ok (e, rest)
  read_expr-print zero (list items) rest h = absurd (omega arith)
  read_expr-print zero (SExpr.sym v) rest h = absurd (omega arith)
  read_expr-print zero (SExpr.str v) rest h = absurd (omega arith)
  read_expr-print (suc fuel) (list items) rest h =
      rw (read_items-print fuel items rest (omega arith))
  read_expr-print (suc fuel) (SExpr.sym v) rest h = refl
  read_expr-print (suc fuel) (SExpr.str v) rest h = refl

  read_items-print :
      (fuel : ℕ) (es : Items) (rest : List Token)
      → need_items es ≤ fuel
      → read_items fuel (print_items es rest) ≡ ok (es, rest)
  read_items-print zero nil rest h = absurd (omega arith)
  read_items-print zero (cons e es) rest h = absurd (omega arith)
  read_items-print (suc fuel) nil rest h = refl
  read_items-print (suc fuel) (cons (list items) es) rest h = rw (
    read_expr-print fuel (list items) (print_items es rest) (omega arith),
    read_items-print fuel es rest (omega arith),
  )
  read_items-print (suc fuel) (cons (SExpr.sym v) es) rest h = rw (
    read_expr-print fuel (SExpr.sym v) (print_items es rest) (omega arith),
    read_items-print fuel es rest (omega arith),
  )
  read_items-print (suc fuel) (cons (SExpr.str v) es) rest h = rw (
    read_expr-print fuel (SExpr.str v) (print_items es rest) (omega arith),
    read_items-print fuel es rest (omega arith),
  )

-- A successful bind has a successful first part.
-- A chain that answered had a first answer.
>>=-answers {ℓ κ} :
    {S : Type ℓ} {T : Type κ} (first : Parsed S) (next : S → Parsed T) {t : T}
    → (first >>= next) ≡ ok t
    → (s : S) × (first ≡ ok s) × (next s ≡ ok t)
>>=-answers parse_error next h = cc
>>=-answers out_of_fuel next h = cc
>>=-answers (ok s) next h = (s, refl, h)

ok-injective {ℓ} : {A : Type ℓ} {a b : A} → Parsed.ok a ≡ ok b → a ≡ b
ok-injective h = cc

mutual
  unfolding read_expr print

  -- Whatever is read was printed.
  read_expr_sound :
      (fuel : ℕ) (toks rest : List Token) (e : SExpr)
      → read_expr fuel toks ≡ ok (e, rest)
      → toks ≡ print e rest
  read_expr_sound zero toks rest e h = cc
  read_expr_sound (suc fuel) [] rest e h = cc
  read_expr_sound (suc fuel) (close_paren ∷ toks) rest e h = cc
  read_expr_sound (suc fuel) (Token.sym v ∷ toks) rest e h =
      let same = ok-injective h in cc (ap (λ (p : SExpr × List Token). print p.0 p.1) same)
  read_expr_sound (suc fuel) (Token.str v ∷ toks) rest e h =
      let same = ok-injective h in cc (ap (λ (p : SExpr × List Token). print p.0 p.1) same)
  read_expr_sound (suc fuel) (open_paren ∷ toks) rest e h =
      let (r, s, h') = >>=-answers (read_items fuel toks) _ h in
      ap (◌∷◌ open_paren) (read_items_sound fuel toks r.1 r.0 s)
      ∙ ap (λ (p : SExpr × List Token). print p.0 p.1) (ok-injective h')

  read_items_sound :
      (fuel : ℕ) (toks rest : List Token) (es : Items)
      → read_items fuel toks ≡ ok (es, rest)
      → toks ≡ print_items es rest
  read_items_sound zero toks rest es h = cc
  read_items_sound (suc fuel) [] rest es h = cc
  read_items_sound (suc fuel) (close_paren ∷ toks) rest es h =
      ap (λ (p : Items × List Token). print_items p.0 p.1) (ok-injective h)
  read_items_sound (suc fuel) (t ∷ toks) rest es h =
      let (r, s, h₁) = >>=-answers (read_expr fuel (t ∷ toks)) _ h in
      let (r', s', h₂) = >>=-answers (read_items fuel r.1) _ h₁ in
      read_expr_sound fuel (t ∷ toks) r.1 r.0 s
      ∙ ap (print r.0) (read_items_sound fuel r.1 r'.1 r'.0 s')
      ∙ ap (λ (p : Items × List Token). print_items p.0 p.1) (ok-injective h₂)

mutual
  unfolding print

  length-print : (e : SExpr) (rest : List Token) → length rest < length (print e rest)
  length-print (list items) rest = omega (arith, length-print_items items rest)
  length-print (SExpr.sym v) rest = omega arith
  length-print (SExpr.str v) rest = omega arith

  length-print_items : (es : Items) (rest : List Token) → length rest < length (print_items es rest)
  length-print_items nil rest = omega arith
  length-print_items (cons e es) rest =
      omega (arith, length-print e (print_items es rest), length-print_items es rest)

mutual
  unfolding print need

  need-print :
      (e : SExpr) (rest : List Token)
      → need e + length rest + length rest < length (print e rest) + length (print e rest)
  need-print (list items) rest = omega (arith, need-print_items items rest)
  need-print (SExpr.sym v) rest = omega arith
  need-print (SExpr.str v) rest = omega arith

  need-print_items :
      (es : Items) (rest : List Token)
      → need_items es + length rest + length rest
        < length (print_items es rest) + length (print_items es rest)
  need-print_items nil rest = omega arith
  need-print_items (cons e es) rest = omega (
    arith,
    need-print e (print_items es rest),
    need-print_items es rest,
    length-print e (print_items es rest),
    length-print_items es rest,
  )

whole-inv : {e : SExpr} (r : SExpr × List Token) → whole r ≡ ok e → (r.0 ≡ e) × (r.1 ≡ [])
whole-inv (e', []) h = (ok-injective h, refl)
whole-inv (e', t ∷ toks) h = cc

-- Reading takes at least one token.
pub read_expr-shorter :
    (fuel : ℕ) (toks rest : List Token) (e : SExpr)
    → read_expr fuel toks ≡ ok (e, rest)
    → length rest < length toks
read_expr-shorter fuel toks rest e h =
    omega (arith, length-print e rest, ap length (read_expr_sound fuel toks rest e h))

-- An expression that was read from a whole token list is the one whose tokens these are, and the
-- tokens of any expression are read back to it.
pub read_all_exact : (toks : List Token) (e : SExpr) → (read_all toks ≡ ok e) ↔ (toks ≡ print e [])
unfolding read_all
read_all_exact toks e = (sound, complete)
  where
    sound : read_all toks ≡ ok e → toks ≡ print e []
    sound h =
        let (r, s, h') = >>=-answers (read_expr (suc (length toks + length toks)) toks) _ h in
        let (same, none_left) = whole-inv r h' in
        read_expr_sound (suc (length toks + length toks)) toks r.1 r.0 s ∙ rw (same, none_left)

    complete : toks ≡ print e [] → read_all toks ≡ ok e
    complete h = rw h (
        rw (
          read_expr-print (suc (length (print e []) + length (print e []))) e []
            (omega (arith, need-print e []))))
