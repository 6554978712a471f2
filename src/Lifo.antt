-- ===== src/Lifo.antt =====
-- src/threadqueues/lifo_threadqueues.c: the ready queue of a shepherd as a stack. Each call is one
-- step; the chain of nodes is the list of their threads from the top.
pub mod Order
pub mod Account
pub mod Dest
use qthreads.Prelude.{
  ℕ, zero, suc, ◌+◌, ◌-◌, ◌*◌, ◌%◌, ◌^◌, ◌≡◌, Bool, true, false, Option, none, some, List, [], ◌∷◌,
  ◌++◌, ltb, if◌then◌else◌,
}

-- `struct _qt_threadqueue`; the length is a signed number of 64 bits, kept as its bits.
pub record Queue : Type 0 where
  pub stack : List ℕ
  pub advisory_queuelen : ℕ

-- `filter_code`
pub data FilterCode : Type 0 where
  ignore_and_continue : FilterCode
  ignore_and_stop : FilterCode
  remove_and_continue : FilterCode
  remove_and_stop : FilterCode

unfoldable pub threadqueue_new : Queue
threadqueue_new = record { stack = []; advisory_queuelen = 0 }

-- `qthread_incr` by 1 and by -1
unfoldable pub plus_one : ℕ → ℕ
plus_one n = (n + 1) % 2 ^ 64

unfoldable pub minus_one : ℕ → ℕ
minus_one n = (n + (2 ^ 64 - 1)) % 2 ^ 64

unfoldable pub dequeue : Queue → Queue × Option ℕ
dequeue q = elim q.stack [
  | [] ↦ (q, none)
  | t ∷ ts ↦ (record { stack = ts; advisory_queuelen = minus_one q.advisory_queuelen }, some t)
]

unfoldable pub enqueue : Queue → ℕ → Queue
enqueue q t = record { stack = t ∷ q.stack; advisory_queuelen = plus_one q.advisory_queuelen }

-- Without `QTHREAD_LIFO_MULTI_DEQUEUER`, under which the file does not compile: the thread goes
-- below all others.
unfoldable pub enqueue_yielded : Queue → ℕ → Queue
enqueue_yielded q t = elim q.stack [
  | [] ↦ enqueue q t
  | u ∷ us ↦ record { stack = (u ∷ us) ++ t ∷ []; advisory_queuelen = plus_one q.advisory_queuelen }
]

-- `qt_scheduler_get_thread`: none while it spins on an empty stack.
unfoldable pub get_thread : Queue → Option (Queue × ℕ)
get_thread q = elim (dequeue q).1 [ none ↦ none | some t ↦ some ((dequeue q).0, t) ]

-- The walk of `qt_threadqueue_filter`.
unfoldable pub filter_stack : (ℕ → FilterCode) → List ℕ → List ℕ
filter_stack f [] = []
filter_stack f (t ∷ ts) =
    let rest = filter_stack f ts in
    elim (f t) [
      | FilterCode.ignore_and_continue ↦ t ∷ rest
      | FilterCode.ignore_and_stop ↦ t ∷ ts
      | FilterCode.remove_and_continue ↦ rest
      | FilterCode.remove_and_stop ↦ ts
    ]

unfoldable pub filter : (ℕ → FilterCode) → Queue → Queue
filter f q = record q { stack = filter_stack f q.stack }

-- The loop of `qt_threadqueue_free`: the threads that it takes off, with fuel.
unfoldable pub free : ℕ → Queue → List ℕ
free zero q = []
free (suc fuel) q =
    let rest = free fuel (dequeue q).0 in elim (dequeue q).1 [ none ↦ [] | some t ↦ t ∷ rest ]

-- `qthread_internal_incr_mod`: what it returns, and the new value.
unfoldable pub incr_mod : ℕ → ℕ → ℕ × ℕ
incr_mod sched max_value =
    let new = (sched + 1) % 2 ^ 64 in (sched, new * (if ltb new max_value then 1 else 0))

-- `qt_threadqueue_choose_dest` among `nshepherds`: the counter of the calling shepherd, if there is
-- one, and that of the library. The destination has 16 bits.
unfoldable pub choose_dest : ℕ → Option ℕ → ℕ → ℕ × (Option ℕ × ℕ)
choose_dest nshepherds none lib_sched =
    ((incr_mod lib_sched nshepherds).0 % 2 ^ 16, (none, (incr_mod lib_sched nshepherds).1))
choose_dest nshepherds (some sched) lib_sched =
    let dest = sched % 2 ^ 16 in
    let new = (sched + 1) % 2 ^ 64 in
    (dest, (some (new * (if ltb (dest + 1) nshepherds then 1 else 0)), lib_sched))
