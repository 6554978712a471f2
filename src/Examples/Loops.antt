-- ===== src/Examples/Loops.antt =====
-- src/qloop.c at concrete inputs.
use qthreads.Loop.{
  SyncType, SyncTarget, WrapperArgs, word, sync_target, fill_args, span, max_workers, balance,
  wrapper, accum_args, accum_result,
}
use qthreads.Loop.Accum.{accum_result-Whole}
use qthreads.Loop.Chunks.{Balanced, balance-Balanced}
use qthreads.Loop.Tree.{wrapper-occurs}
use qthreads.Prelude.{◌≡◌, ◌+◌, ◌-◌, none, refl, some, [], ◌∷◌, map, occurs, arith}

-- Ten iterations for four workers: the pieces end at 8, 11, 13 and 15.
ten-by-four : balance 4 5 15 SyncType.donecount ≡ some (fill_args 4 0 5 2 2 4 SyncTarget.to_dc)
unfolding balance span max_workers word sync_target
ten-by-four = refl

ends-of-ten :
    map (λ (a : WrapperArgs). a.stopat) (fill_args 4 0 5 2 2 4 SyncTarget.to_dc)
    ≡ 8 ∷ 11 ∷ 13 ∷ 15 ∷ []
unfolding fill_args word
ends-of-ten = refl

ids-of-six : wrapper 7 6 0 0 ≡ 3 ∷ 5 ∷ 1 ∷ 2 ∷ 4 ∷ 0 ∷ []
unfolding wrapper
ids-of-six = refl

donecount-target : sync_target SyncType.donecount ≡ some SyncTarget.to_dc
unfolding sync_target
donecount-target = refl

balance-Balanced_example : Balanced 4 5 15 SyncType.donecount (balance 4 5 15 SyncType.donecount)
balance-Balanced_example =
    balance-Balanced 4 5 15 SyncType.donecount SyncTarget.to_dc (ground arith) (ground arith)
      (ground arith) (ground arith) donecount-target

wrapper-occurs_example : occurs 3 (wrapper 7 6 0 0) ≡ 1
wrapper-occurs_example = wrapper-occurs 6 6 3 (ground arith) (ground arith)

-- Three workers add up the lengths of their ranges.
accum_result-Whole_example :
    elim (accum_args 3 0 10 SyncType.syncvar_t) [
      | none ↦ none
      | some args ↦ accum_result (λ a b. a + b) (λ a b. b - a) SyncType.syncvar_t args
    ]
    ≡ some 10
accum_result-Whole_example =
    accum_result-Whole (λ a b. a + b) (λ a b. b - a) (λ a b c h k. omega (arith, h, k)) 3 0 10
      (omega arith) (omega arith) (omega arith)
