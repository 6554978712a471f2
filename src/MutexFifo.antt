-- ===== src/MutexFifo.antt =====
-- src/threadqueues/mutexfifo_threadqueues.c: the ready queue of a shepherd as a chain of nodes with a
-- dummy in front. Each call is one step: the code holds the lock of the head or of the tail.
pub mod Links
pub mod Filter
pub mod Refine
use qthreads.Lifo.{FilterCode, plus_one, minus_one}
use qthreads.Prelude.{
  ℕ, zero, suc, ◌+◌, ◌≡◌, Bool, true, false, Option, none, some, List, [], ◌∷◌, ◌==◌, if◌then◌else◌,
  update,
}

-- `_qt_threadqueue_node`. A thread is a number, and 0 is `NULL`.
pub record ThreadqueueNode : Type 0 where
  pub next : Option ℕ
  pub value : ℕ

-- `_qt_threadqueue` with the memory of its nodes. A freed node keeps its content here.
pub record Threadqueue : Type 0 where
  pub head : ℕ
  pub tail : ℕ
  pub nodes : ℕ → ThreadqueueNode
  pub advisory_queuelen : ℕ

-- `qt_threadqueue_new`; `node` is the address that the pool returns, none is `NULL`.
unfoldable pub fifo_new : Option ℕ → (ℕ → ThreadqueueNode) → Option Threadqueue
fifo_new none nodes = none
fifo_new (some node) nodes = some (record {
  head = node;
  tail = node;
  nodes = update nodes node (record { next = none; value = 0 });
  advisory_queuelen = 0;
})

-- `qt_threadqueue_dequeue`
unfoldable pub fifo_dequeue : Threadqueue → Threadqueue × ℕ
fifo_dequeue q = elim (q.nodes q.head).next [
  | none ↦ (q, 0)
  | some new_head ↦
      let p = (q.nodes new_head).value in
      (
        record q {
          head = new_head;
          advisory_queuelen = if p == 0 then q.advisory_queuelen else minus_one q.advisory_queuelen;
        },
        p,
      )
]

-- `qt_threadqueue_enqueue`; `node` is the address that the pool returns.
unfoldable pub fifo_enqueue : ℕ → ℕ → Threadqueue → Threadqueue
fifo_enqueue node t q =
    let nodes = update q.nodes node (record { next = none; value = t }) in
    record q {
      nodes = update nodes q.tail (record (nodes q.tail) { next = some node });
      tail = node;
      advisory_queuelen = plus_one q.advisory_queuelen;
    }

-- `qt_threadqueue_enqueue_yielded`
unfoldable pub fifo_enqueue_yielded : ℕ → ℕ → Threadqueue → Threadqueue
fifo_enqueue_yielded node t q = fifo_enqueue node t q

-- A node is taken out of the chain; `prev` is the node in front of it, which `ptr` points to.
unfoldable pub unlink : ℕ → ℕ → Threadqueue → Threadqueue
unlink prev curs q =
    let next = (q.nodes curs).next in
    record q {
      tail = elim next [ none ↦ prev | some n ↦ q.tail ];
      nodes = update q.nodes prev (record (q.nodes prev) { next = next });
    }

-- The loop of `qt_threadqueue_filter`, with fuel.
unfoldable pub filter_from : ℕ → (ℕ → FilterCode) → ℕ → Option ℕ → Threadqueue → Option Threadqueue
filter_from zero f prev curs q = none
filter_from (suc fuel) f prev none q = some q
filter_from (suc fuel) f prev (some curs) q =
    let next = (q.nodes curs).next in
    let skip = filter_from fuel f curs next q in
    let drop = filter_from fuel f prev next (unlink prev curs q) in
    elim (f (q.nodes curs).value) [
      | FilterCode.ignore_and_continue ↦ skip
      | FilterCode.ignore_and_stop ↦ some q
      | FilterCode.remove_and_continue ↦ drop
      | FilterCode.remove_and_stop ↦ some (unlink prev curs q)
    ]

-- `qt_threadqueue_filter`
unfoldable pub fifo_filter : ℕ → (ℕ → FilterCode) → Threadqueue → Option Threadqueue
fifo_filter fuel f q = filter_from fuel f q.head (q.nodes q.head).next q

-- `qt_threadqueue_free`: the threads that its loop takes off, with fuel.
unfoldable pub fifo_free : ℕ → Threadqueue → Option (List ℕ)
fifo_free zero q = none
fifo_free (suc fuel) q =
    let rest = fifo_free fuel (fifo_dequeue q).0 in
    if q.head == q.tail
    then some []
    else elim rest [ none ↦ none | some l ↦ some ((fifo_dequeue q).1 ∷ l) ]
