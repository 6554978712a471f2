-- ===== src/Examples/MutexFifos.antt =====
-- src/threadqueues/mutexfifo_threadqueues.c on a queue of three threads.
use qthreads.Lifo.{FilterCode, ignore_and_continue, remove_and_continue}
use qthreads.MutexFifo.{
  Threadqueue, fifo_dequeue, fifo_enqueue, fifo_filter, filter_from, unlink, fifo_free,
}
use qthreads.MutexFifo.Refine.{IsQueue, Keeps, filter_call, fifo_call-Keeps}
use qthreads.Prelude.{ℕ, ◌+◌, ◌≡◌, refl, none, some, [], ◌∷◌, ◌==◌, if◌then◌else◌, arith}

-- The dummy is node 1; the threads 7, 8 and 9 are in nodes 2, 3 and 4.
abbrev three : Threadqueue
three = record {
  head = 1;
  tail = 4;
  nodes = λ a. record {
    next = if a == 4 then none else some (a + 1);
    value = if a == 1 then 0 else a + 5;
  };
  advisory_queuelen = 3;
}

three-IsQueue : IsQueue three (7 ∷ 8 ∷ 9 ∷ [])
three-IsQueue = record {
  nodes = (2, 7) ∷ (3, 8) ∷ (4, 9) ∷ [];
  chain = (
    refl,
    refl,
    ((λ e. omega arith), ((λ e. omega arith), ((λ e. omega arith), tt))),
    (λ e. omega arith),
    (
      refl,
      refl,
      ((λ e. omega arith), ((λ e. omega arith), tt)),
      (λ e. omega arith),
      (refl, refl, ((λ e. omega arith), tt), (λ e. omega arith), (refl, refl)),
    ),
  );
  holds = refl;
}

abbrev drop_last : ℕ → FilterCode
drop_last t = if t == 9 then remove_and_continue else ignore_and_continue

fifo_call-Keeps_example : Keeps 4 (filter_call drop_last) three (7 ∷ 8 ∷ 9 ∷ [])
fifo_call-Keeps_example =
    fifo_call-Keeps 4 (filter_call drop_last) three (7 ∷ 8 ∷ 9 ∷ []) three-IsQueue (omega arith) tt

-- The last node is filtered out: the tail is the node before, and a thread goes behind that.
put_behind :
    (elim (fifo_filter 4 drop_last three) [
      | none ↦ none
      | some q ↦ fifo_free 4 (fifo_enqueue 4 6 q)
    ])
    ≡ some (7 ∷ 8 ∷ 6 ∷ [])
unfolding fifo_filter filter_from unlink fifo_free fifo_dequeue fifo_enqueue
put_behind = refl
