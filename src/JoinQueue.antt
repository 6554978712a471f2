-- ===== src/JoinQueue.antt =====
-- src/queue.c: queues that waiting threads join. The unsynchronised one is a chain of nodes with a
-- head and a tail, the capped one an array. Each call is one step, and `busy` is 0 between steps.
pub mod Stale
use qthreads.Prelude.{
  ℕ, zero, suc, ◌+◌, ◌-◌, ◌%◌, ◌^◌, ◌<◌, ◌≡◌, Bool, true, false, ◌&&◌, Option, none, some, List, [],
  ◌∷◌, ◌==◌, ltb, leb, if◌then◌else◌, update,
}

-- `qthread_queue_node_t`; a pointer is the address of a node, or none.
pub record Node : Type 0 where
  pub next : Option ℕ
  pub thread : ℕ

-- `qthread_queue_nosync_t` with the memory of the nodes. A freed node keeps its content here.
pub record Nosync : Type 0 where
  pub head : Option ℕ
  pub tail : Option ℕ
  pub nodes : ℕ → Node

-- `node` is the address that the pool returns.
unfoldable pub nosync_enqueue : ℕ → ℕ → Nosync → Nosync
nosync_enqueue node t q =
    let nodes = update q.nodes node (record { next = none; thread = t }) in
    elim q.tail [
      | none ↦ record { head = some node; tail = some node; nodes = nodes }
      | some last ↦ record {
        head = q.head;
        tail = some node;
        nodes = update nodes last (record (nodes last) { next = some node });
      }
    ]

unfoldable pub nosync_dequeue : Nosync → Nosync × Option ℕ
nosync_dequeue q = elim q.head [
  | none ↦ (q, none)
  | some node ↦ (record q { head = (q.nodes node).next }, some (q.nodes node).thread)
]

-- `qthread_queue_capped_t`; a member is none where the array holds NULL.
pub record Capped : Type 0 where
  pub members : ℕ → Option ℕ
  pub membercount : ℕ
  pub maxmembers : ℕ

-- A full queue drops the thread; none where the assertion fails that the index is not below the length
-- of the array.
unfoldable pub capped_enqueue : ℕ → Capped → Option Capped
capped_enqueue t q =
    let offset = q.membercount in
    if leb q.maxmembers q.membercount
    then some q
    else if leb q.maxmembers offset
    then some (record q { membercount = offset + 1; members = update q.members offset (some t) })
    else none

-- The search of `qthread_queue_internal_capped_dequeue` from index `i` on, with the number of
-- members that are left.
unfoldable pub first_member : (ℕ → Option ℕ) → ℕ → ℕ → Option (ℕ × ℕ)
first_member members zero i = none
first_member members (suc left) i =
    let rest = first_member members left (i + 1) in
    elim (members i) [ none ↦ rest | some t ↦ some (i, t) ]

unfoldable pub capped_dequeue : Capped → Capped × Option ℕ
capped_dequeue q = elim (first_member q.members q.membercount 0) [
  | none ↦ (q, none)
  | some found ↦ (record q { members = update q.members found.0 none }, some found.1)
]

-- The launches of the last loop of `qthread_queue_release_all`, in order.
unfoldable pub launched : (ℕ → Option ℕ) → ℕ → ℕ → List ℕ
launched members zero c = []
launched members (suc left) c =
    let rest = launched members left (c + 1) in elim (members c) [ none ↦ rest | some t ↦ t ∷ rest ]

-- The case `CAPPED` of `qthread_queue_release_all`, with the threads that it launches.
unfoldable pub capped_release_all : Capped → Capped × List ℕ
capped_release_all q =
    let count = if q.membercount == q.maxmembers then 0 else q.membercount in
    (
      record q {
        members = λ i. if ltb i q.membercount then none else q.members i;
        membercount = count;
      },
      launched q.members count 0,
    )
