-- ===== src/Law/Kleene.antt =====
-- `asBool` is Kleene's three-valued logic: the loops of "and" and "or", which stop early, are the
-- minimum and the maximum of their arguments.
use coltrane.Base.{◌≡◌, refl, sym as inverse, ap, ◌∙◌, Bool, true, false, if◌then◌else◌, arith}
use coltrane.Law.Syntax.{Items, list, sym, nil, cons}
use coltrane.Law.Evaluation.{
  FactRecord, Tri, yes_, no_, unknown, as_bool, and_loop, or_loop, negate,
}

-- false < unknown < true
abbrev kleene_and : Tri → Tri → Tri
kleene_and no_ b = no_
kleene_and unknown no_ = no_
kleene_and unknown b = unknown
kleene_and yes_ b = b

abbrev kleene_or : Tri → Tri → Tri
kleene_or a b = negate (kleene_and (negate a) (negate b))

-- The conjunction and the disjunction of all arguments, with no early exit.
abbrev pub conjunction : FactRecord → Items → Tri
conjunction facts nil = yes_
conjunction facts (cons a args) = kleene_and (as_bool facts a) (conjunction facts args)

abbrev pub disjunction : FactRecord → Items → Tri
disjunction facts nil = no_
disjunction facts (cons a args) = kleene_or (as_bool facts a) (disjunction facts args)

and_loop-conjunction :
    (facts : FactRecord) (args : Items) (seen : Bool)
    → and_loop facts args seen
      ≡ kleene_and (if seen then unknown else yes_) (conjunction facts args)
unfolding as_bool
and_loop-conjunction facts nil seen = ground arith
and_loop-conjunction facts (cons a args) seen =
    ground (arith, and_loop-conjunction facts args seen, and_loop-conjunction facts args true)

or_loop-disjunction :
    (facts : FactRecord) (args : Items) (seen : Bool)
    → or_loop facts args seen ≡ kleene_or (if seen then unknown else no_) (disjunction facts args)
unfolding as_bool
or_loop-disjunction facts nil seen = ground arith
or_loop-disjunction facts (cons a args) seen =
    ground (arith, or_loop-disjunction facts args seen, or_loop-disjunction facts args true)

-- "and" is Kleene's conjunction of all its arguments, and "or" Kleene's disjunction.
pub as_bool-kleene :
    (facts : FactRecord) (args : Items)
    → (as_bool facts (list (cons (sym "and") args)) ≡ conjunction facts args)
      × (as_bool facts (list (cons (sym "or") args)) ≡ disjunction facts args)
unfolding as_bool
as_bool-kleene facts args = (
  and_loop-conjunction facts args false ∙ ground arith,
  or_loop-disjunction facts args false ∙ ground arith,
)

-- Every argument under "not".
abbrev pub negated : Items → Items
negated nil = nil
negated (cons a args) = cons (list (cons (sym "not") (cons a nil))) (negated args)

conjunction-negated :
    (facts : FactRecord) (args : Items)
    → conjunction facts (negated args) ≡ negate (disjunction facts args)
unfolding as_bool
conjunction-negated facts nil = refl
conjunction-negated facts (cons a args) = ground (arith, conjunction-negated facts args)

-- De Morgan: the conjunction of the negations is the negation of the disjunction.
de_morgan :
    (facts : FactRecord) (args : Items)
    → as_bool facts (list (cons (sym "and") (negated args)))
      ≡ as_bool facts (list (cons (sym "not") (cons (list (cons (sym "or") args)) nil)))
de_morgan facts args =
    (as_bool-kleene facts (negated args)).0
    ∙ conjunction-negated facts args
    ∙ (unfold as_bool in ap negate (inverse (as_bool-kleene facts args).1))
