-- ===== src/Examples/Lifos.antt =====
-- src/threadqueues/lifo_threadqueues.c at concrete inputs.
use qthreads.Lifo.{
  Queue, FilterCode, threadqueue_new, plus_one, minus_one, dequeue, enqueue, enqueue_yielded,
  filter_stack, filter, get_thread,
}
use qthreads.Lifo.Order.{looked, below, keep, removes, filter_stack-eq}
use qthreads.Lifo.Account.{Call, IsAccounted, step, run, run-IsAccounted}
use qthreads.Lifo.Dest.{from_shepherd, from_shepherd-eq}
use qthreads.Prelude.{ℕ, ◌≡◌, refl, not, some, List, [], ◌∷◌, ◌++◌, ◌==◌, if◌then◌else◌, arith}

abbrev three : Queue
three = record { stack = 4 ∷ 5 ∷ 6 ∷ []; advisory_queuelen = 3 }

abbrev drop_five : ℕ → FilterCode
drop_five t = if t == 5 then FilterCode.remove_and_stop else FilterCode.ignore_and_continue

drop_five-three : filter_stack drop_five (4 ∷ 5 ∷ 6 ∷ []) ≡ 4 ∷ 6 ∷ []
unfolding filter_stack
drop_five-three = refl

get-three : get_thread three ≡ some (record { stack = 5 ∷ 6 ∷ []; advisory_queuelen = 2 }, 4)
unfolding get_thread dequeue minus_one
get-three = refl

abbrev calls : List Call
calls =
    Call.dequeue_call ∷ Call.filter_call drop_five ∷ Call.yield_call 7 ∷ Call.enqueue_call 5 ∷ []

run-calls : (run calls).queue ≡ record { stack = []; advisory_queuelen = 1 }
unfolding run step threadqueue_new enqueue enqueue_yielded filter filter_stack dequeue plus_one
    minus_one
run-calls = refl

run-IsAccounted_example : IsAccounted (run calls)
run-IsAccounted_example = run-IsAccounted calls

filter_stack-eq_example :
    (looked drop_five (4 ∷ 5 ∷ 6 ∷ []) ++ below drop_five (4 ∷ 5 ∷ 6 ∷ []) ≡ 4 ∷ 5 ∷ 6 ∷ [])
    × (filter_stack drop_five (4 ∷ 5 ∷ 6 ∷ [])
        ≡ keep (λ t. not (removes (drop_five t))) (looked drop_five (4 ∷ 5 ∷ 6 ∷ []))
          ++ below drop_five (4 ∷ 5 ∷ 6 ∷ []))
filter_stack-eq_example = filter_stack-eq drop_five (4 ∷ 5 ∷ 6 ∷ [])

from_shepherd-eq_example : from_shepherd 3 5 1 ≡ 1 ∷ 2 ∷ 0 ∷ 1 ∷ 2 ∷ []
from_shepherd-eq_example = from_shepherd-eq 3 5 1 (ground arith) (ground arith)
