-- ===== src/Law/Reads.antt =====
-- A verdict depends on no fact but those that `collectSymbols` reports, and the two that are named
-- like verdicts.
use mathlib.Core.Path.{fun_ext}
use coltrane.Base.{
  includes-append, String, ◌≡◌, refl, Bool, true, false, List, [], ◌==◌, eq_iff, eq_refl, includes,
  Bool-cases, inl, inr, arith, lookup,
}
use coltrane.Law.Syntax.{SExpr, Items, list, sym, str, nil, cons}
use coltrane.Law.Evaluation.{
  FactRecord, unknown, as_bool, and_loop, or_loop, not_args, eq_args, flag_args, as_verdict,
  implies_args, require_args, resolve_operand, undecided,
}
use coltrane.Law.Symbols.{Symbols, add, add_op, collect, collect_items, is_binding, is_verdict_atom}

includes-add :
    (n x : String) (xs : List String) → includes n xs ≡ true → includes n (add x xs) ≡ true
includes-add n x xs h = ground (arith, includes-append n x xs)

includes-add_self : (x : String) (xs : List String) → includes x (add x xs) ≡ true
includes-add_self x xs = ground (arith, includes-append x x xs, eq_refl x)

mutual
  unfolding collect

  collect_mono :
      (e : SExpr) (head : Bool) (bound : List String) (s : Symbols) (n : String)
      → includes n s.vars ≡ true
      → includes n (collect e head bound s).vars ≡ true
  collect_mono (sym name) true bound s n h = h
  collect_mono (sym name) false bound s n h = ground (arith, includes-add n name s.vars)
  collect_mono (str v) head bound s n h = h
  collect_mono (list nil) head bound s n h = h
  collect_mono (list (cons (sym op) nil)) head bound s n h = h
  collect_mono (list (cons (sym op) (cons (sym x) more))) head bound s n h =
      elim (Bool-cases (is_binding op)) [
        | inl b ↦ rw b (collect_items_mono more (add x bound) (add_op op s) n h)
        | inr b ↦ rw b (
            collect_items_mono more bound (collect (sym x) false bound (add_op op s)) n
              (collect_mono (sym x) false bound (add_op op s) n h))
      ]
  collect_mono (list (cons (sym op) (cons (list items) more))) head bound s n h =
      collect_items_mono more bound _ n (collect_mono (list items) false bound (add_op op s) n h)
  collect_mono (list (cons (sym op) (cons (str v) more))) head bound s n h =
      collect_items_mono more bound (add_op op s) n h
  collect_mono (list (cons (str v) rest)) head bound s n h = collect_items_mono rest bound s n h
  collect_mono (list (cons (list items) rest)) head bound s n h =
      collect_items_mono rest bound _ n (collect_mono (list items) true bound s n h)

  collect_items_mono :
      (es : Items) (bound : List String) (s : Symbols) (n : String)
      → includes n s.vars ≡ true
      → includes n (collect_items es bound s).vars ≡ true
  collect_items_mono nil bound s n h = h
  collect_items_mono (cons e es) bound s n h =
      collect_items_mono es bound (collect e false bound s) n (collect_mono e false bound s n h)

-- Two fact records that hold the same at each of these names.
pub record Agree (f g : FactRecord) (names : List String) : Type 0 where
  pub at : (n : String) → includes n names ≡ true → lookup n f ≡ lookup n g

-- The facts that are named like the verdicts, which `collectSymbols` passes over.
pub record AgreeOnAtoms (f g : FactRecord) : Type 0 where
  pub allow : lookup "allow" f ≡ lookup "allow" g
  pub deny : lookup "deny" f ≡ lookup "deny" g

module _ {f g : FactRecord} (atoms : AgreeOnAtoms f g) where
  atom-lookup : (name : String) → is_verdict_atom name ≡ true → lookup name f ≡ lookup name g
  atom-lookup name h = elim (Bool-cases (name == "allow")) [
    | inl a ↦ rw ((eq_iff name "allow").0 a) atoms.allow
    | inr a ↦ rw ((eq_iff name "deny").0 (rw a at h)) atoms.deny
  ]

  operand-same :
      (e : SExpr) (s : Symbols)
      → Agree f g (collect e false [] s).vars
      → resolve_operand e f ≡ resolve_operand e g
  unfolding resolve_operand collect includes
  operand-same (str v) s h = refl
  operand-same (list items) s h = refl
  operand-same (sym name) s h = elim (Bool-cases (is_verdict_atom name)) [
    | inl a ↦ rw (atom-lookup name a)
    | inr a ↦ rw ((rw a at h).at name (includes-add_self name s.vars))
  ]

  before_items :
      (es : Items) (s : Symbols) → Agree f g (collect_items es [] s).vars → Agree f g s.vars
  before_items es s h = record { at = λ n i. h.at n (collect_items_mono es [] s n i) }

  eq_args-same :
      (args : Items) (s : Symbols)
      → Agree f g (collect_items args [] s).vars
      → eq_args f args ≡ eq_args g args
  unfolding collect eq_args
  eq_args-same (cons l (cons r nil)) s h = rw (
    operand-same l s (before_items (cons r nil) (collect l false [] s) h),
    operand-same r (collect l false [] s) h,
  )
  eq_args-same args s h = refl

  flag_args-same :
      (flag : String) (args : Items) (s : Symbols)
      → Agree f g (collect_items args [] s).vars
      → flag_args flag f args ≡ flag_args flag g args
  unfolding collect flag_args
  flag_args-same flag (cons a nil) s h = rw (operand-same a s h)
  flag_args-same flag args s h = refl

  -- What the operators read of their arguments is the same.
  record SameArgs (args : Items) : Type 0 where
    conj : and_loop f args ≡ and_loop g args
    disj : or_loop f args ≡ or_loop g args
    neg : not_args f args ≡ not_args g args
    eqs : eq_args f args ≡ eq_args g args
    flags : (flag : String) → flag_args flag f args ≡ flag_args flag g args

  call-same :
      (head : String) (args : Items)
      → SameArgs args
      → as_bool f (list (cons (sym head) args)) ≡ as_bool g (list (cons (sym head) args))
  unfolding as_bool
  call-same head args h =
      rw (h.conj, h.disj, h.neg, h.eqs, h.flags "is_agent", h.flags "human_governor")

  -- A binding operator is none that `asBool` reduces.
  binding_unknown :
      (facts : FactRecord) (op : String) (args : Items)
      → is_binding op ≡ true
      → as_bool facts (list (cons (sym op) args)) ≡ unknown
  unfolding as_bool
  binding_unknown facts op args h = elim (Bool-cases (op == "forall")) [
    | inl a ↦ rw ((eq_iff op "forall").0 a)
    | inr a ↦ rw ((eq_iff op "exists").0 (rw a at h))
  ]

  not_args-same :
      (e : SExpr) (es : Items)
      → as_bool f e ≡ as_bool g e
      → not_args f (cons e es) ≡ not_args g (cons e es)
  unfolding as_bool
  not_args-same e nil h = rw h
  not_args-same e (cons d es) h = refl

  mutual
    unfolding collect as_bool

    as_bool-same :
        (e : SExpr) (s : Symbols)
        → Agree f g (collect e false [] s).vars
        → as_bool f e ≡ as_bool g e
    as_bool-same (sym name) s h = refl
    as_bool-same (str v) s h = refl
    as_bool-same (list nil) s h = refl
    as_bool-same (list (cons (list items) args)) s h = refl
    as_bool-same (list (cons (str v) args)) s h = refl
    as_bool-same (list (cons (sym op) nil)) s h = call-same op nil (args-same nil (add_op op s) h)
    as_bool-same (list (cons (sym op) (cons (list items) more))) s h =
        call-same op (cons (list items) more) (args-same (cons (list items) more) (add_op op s) h)
    as_bool-same (list (cons (sym op) (cons (str v) more))) s h =
        call-same op (cons (str v) more) (args-same (cons (str v) more) (add_op op s) h)
    as_bool-same (list (cons (sym op) (cons (sym x) more))) s h =
        elim (Bool-cases (is_binding op)) [
          | inl b ↦ rw (
            binding_unknown f op (cons (sym x) more) b,
            binding_unknown g op (cons (sym x) more) b,
          )
          | inr b ↦
              call-same op (cons (sym x) more)
                (args-same (cons (sym x) more) (add_op op s) (rw b at h))
        ]

    args-same : (es : Items) (s : Symbols) → Agree f g (collect_items es [] s).vars → SameArgs es
    args-same nil s h = record {
      conj = refl;
      disj = refl;
      neg = refl;
      eqs = refl;
      flags = λ flag. refl;
    }
    args-same (cons e es) s h =
        let rest = args-same es (collect e false [] s) h in
        let one = as_bool-same e s (before_items es (collect e false [] s) h) in
        record {
          conj = fun_ext λ seen. rw (one, rest.conj);
          disj = fun_ext λ seen. rw (one, rest.disj);
          neg = not_args-same e es one;
          eqs = eq_args-same (cons e es) s h;
          flags = λ flag. flag_args-same flag (cons e es) s h;
        }

  binding_undecided :
      (facts : FactRecord) (op : String) (args : Items)
      → is_binding op ≡ true
      → as_verdict facts (list (cons (sym op) args)) ≡ undecided
  unfolding as_verdict
  binding_undecided facts op args h = elim (Bool-cases (op == "forall")) [
    | inl a ↦ rw ((eq_iff op "forall").0 a)
    | inr a ↦ rw ((eq_iff op "exists").0 (rw a at h))
  ]

  verdict_call-same :
      (head : String) (args : Items)
      → implies_args f args ≡ implies_args g args
      → require_args f args ≡ require_args g args
      → as_verdict f (list (cons (sym head) args)) ≡ as_verdict g (list (cons (sym head) args))
  unfolding as_verdict
  verdict_call-same head args i r = rw (i, r)

  require_args-same :
      (args : Items) (s : Symbols)
      → Agree f g (collect_items args [] s).vars
      → require_args f args ≡ require_args g args
  unfolding collect as_verdict
  require_args-same (cons r nil) s h = rw (as_bool-same r s h)
  require_args-same args s h = refl

  mutual
    unfolding collect as_verdict

    pub as_verdict-same :
        (e : SExpr) (s : Symbols)
        → Agree f g (collect e false [] s).vars
        → as_verdict f e ≡ as_verdict g e
    as_verdict-same (sym name) s h = refl
    as_verdict-same (str v) s h = refl
    as_verdict-same (list nil) s h = refl
    as_verdict-same (list (cons (list items) args)) s h = refl
    as_verdict-same (list (cons (str v) args)) s h = refl
    as_verdict-same (list (cons (sym op) nil)) s h = verdict_call-same op nil refl refl
    as_verdict-same (list (cons (sym op) (cons (list items) more))) s h =
        verdict_call-same op (cons (list items) more)
          (implies_args-same (cons (list items) more) (add_op op s) h)
          (require_args-same (cons (list items) more) (add_op op s) h)
    as_verdict-same (list (cons (sym op) (cons (str v) more))) s h =
        verdict_call-same op (cons (str v) more)
          (implies_args-same (cons (str v) more) (add_op op s) h)
          (require_args-same (cons (str v) more) (add_op op s) h)
    as_verdict-same (list (cons (sym op) (cons (sym x) more))) s h =
        elim (Bool-cases (is_binding op)) [
          | inl b ↦ rw (
            binding_undecided f op (cons (sym x) more) b,
            binding_undecided g op (cons (sym x) more) b,
          )
          | inr b ↦
              verdict_call-same op (cons (sym x) more)
                (implies_args-same (cons (sym x) more) (add_op op s) (rw b at h))
                (require_args-same (cons (sym x) more) (add_op op s) (rw b at h))
        ]

    implies_args-same :
        (args : Items) (s : Symbols)
        → Agree f g (collect_items args [] s).vars
        → implies_args f args ≡ implies_args g args
    implies_args-same (cons p (cons q nil)) s h = rw (
      as_bool-same p s (before_items (cons q nil) (collect p false [] s) h),
      as_verdict-same q (collect p false [] s) h,
    )
    implies_args-same args s h = refl
