-- ===== src/Law/Symbols.antt =====
-- src/institution_enforcement.ts, `collectSymbols`: the variables and the operators of a predicate, as
-- sets in order of first occurrence.
use coltrane.Base.{
  String, Bool, true, false, not, ◌&&◌, ◌||◌, List, [], ◌∷◌, ◌++◌, if◌then◌else◌, ◌==◌, includes,
}
use coltrane.Law.Syntax.{SExpr, Items, list, sym, str, nil, cons}

-- `set.add(x)`
abbrev pub add : String → List String → List String
add x xs = if includes x xs then xs else xs ++ x ∷ []

pub record Symbols : Type 0 where
  pub vars : List String
  pub ops : List String

abbrev pub no_symbols : Symbols
no_symbols = record { vars = []; ops = [] }

abbrev pub is_binding : String → Bool
is_binding op = op == "forall" || op == "exists"

abbrev pub is_verdict_atom : String → Bool
is_verdict_atom name = name == "allow" || name == "deny"

abbrev add_var : String → Symbols → Symbols
add_var x s = record s { vars = add x s.vars }

abbrev pub add_op : String → Symbols → Symbols
add_op x s = record s { ops = add x s.ops }

unfoldable mutual
  pub collect : SExpr → Bool → List String → Symbols → Symbols
  collect (sym name) true bound s = add_op name s
  collect (sym name) false bound s =
      if not (is_verdict_atom name) && not (includes name bound) then add_var name s else s
  collect (str v) head bound s = s
  collect (list nil) head bound s = s
  collect (list (cons (sym op) nil)) head bound s = add_op op s
  collect (list (cons (sym op) (cons (sym x) more))) head bound s =
      let under = collect_items more (add x bound) (add_op op s) in
      let plain = collect_items more bound (collect (sym x) false bound (add_op op s)) in
      if is_binding op then under else plain
  collect (list (cons (sym op) (cons (list items) more))) head bound s =
      collect_items more bound (collect (list items) false bound (add_op op s))
  collect (list (cons (sym op) (cons (str v) more))) head bound s =
      collect_items more bound (add_op op s)
  collect (list (cons (str v) rest)) head bound s = collect_items rest bound s
  collect (list (cons (list items) rest)) head bound s =
      collect_items rest bound (collect (list items) true bound s)

  pub collect_items : Items → List String → Symbols → Symbols
  collect_items nil bound s = s
  collect_items (cons e es) bound s = collect_items es bound (collect e false bound s)

unfoldable pub symbols : SExpr → Symbols
unfolding collect
symbols e = collect e false [] no_symbols
