-- ===== src/ReservePool/Tests.antt =====
-- The pool of src/runtime.ts on small histories.
use coltrane.Base.{false, ◌≡◌, refl, sym, ap, some-eq_some, some, List, [], ◌∷◌, lookup, put}
use coltrane.ReservePool.{
  left, overdrawn, active, opened, leave, PoolOp, prepares, draws, lands, run_pool,
}
use coltrane.ReservePool.Lending.{IsConserved, IsOrderly, run_pool-IsConserved}
use coltrane.ReservePool.Yielding.{
  landing_hides_draw, IsSequential, TellsDraws, run_pool-TellsDraws,
}

-- Two chairs of a batch reach for six turns each, of a pool of eight.
abbrev batch : List PoolOp
batch =
    prepares "sax" (some 6)
    ∷ prepares "bass" (some 6)
    ∷ draws "bass"
    ∷ draws "sax"
    ∷ lands "sax"
    ∷ []

batch_lends : (run_pool batch (opened 8)).pool_remaining ≡ left 0
unfolding run_pool lookup put leave
batch_lends = refl

-- The second chair was lent what the first had left.
batch_grants :
    (run_pool batch (opened 8)).draws
    ≡ record { role = "bass"; granted = 2; pool_remaining_after = left 6; denied = false }
      ∷ record { role = "sax"; granted = 6; pool_remaining_after = left 0; denied = false }
      ∷ []
unfolding run_pool lookup put leave
batch_grants = refl

-- An invocation that drew twice would be lent its turns twice.
draws_again :
    (run_pool (prepares "sax" (some 6) ∷ draws "sax" ∷ draws "sax" ∷ []) (opened 8)).pool_remaining
    ≡ overdrawn 4
unfolding run_pool lookup put leave
draws_again = refl

run_pool-IsConserved_example : IsConserved 8 (run_pool batch (opened 8))
unfolding IsOrderly lookup put
run_pool-IsConserved_example = run_pool-IsConserved 8 batch (
  tt,
  (
    tt,
    (
      (λ seat h. ap (λ t. t.is_settled) (sym (some-eq_some h))),
      ((λ seat h. ap (λ t. t.is_settled) (sym (some-eq_some h))), (tt, tt)),
    ),
  ),
)

abbrev one_by_one : List PoolOp
one_by_one = prepares "sax" (some 6) ∷ draws "sax" ∷ lands "sax" ∷ prepares "bass" (some 6) ∷ []

run_pool-TellsDraws_example : TellsDraws (run_pool one_by_one (opened 8))
unfolding IsSequential lookup put leave
run_pool-TellsDraws_example = run_pool-TellsDraws 8 one_by_one (refl, (tt, (tt, (refl, tt))))

abbrev crossing : List PoolOp
crossing =
    prepares "sax" (some 3)
    ∷ prepares "bass" (some 4)
    ∷ draws "sax"
    ∷ draws "bass"
    ∷ lands "sax"
    ∷ []

landing_hides_draw_example :
    ((run_pool crossing (opened 8)).agent_state ≡ active)
    × ¬ TellsDraws (run_pool crossing (opened 8))
landing_hides_draw_example = landing_hides_draw "sax" "bass" refl 8 (some 3) (some 4)
