-- ===== src/SwsrQueue.antt =====
-- src/ds/qswsrqueue.c: a bounded ring buffer for one writer and one reader. `size` and `size2` are
-- two copies of the capacity. A `uint32_t` is a number below 2 ^ 32.
pub mod Contents
pub mod Laws
pub mod Interleaved
pub mod Fifo
pub mod Create
use qthreads.Prelude.{
  ℕ, ◌+◌, ◌-◌, ◌*◌, ◌/◌, ◌%◌, ◌^◌, ◌<◌, ◌≡◌, Bool, true, false, Option, none, some, ◌==◌, ltb,
  if◌then◌else◌, update,
}

-- `struct qswsrqueue_s`; `elements` is the array that follows it.
pub record Ring : Type 0 where
  pub head : ℕ
  pub size : ℕ
  pub tail : ℕ
  pub size2 : ℕ
  pub elements : ℕ → ℕ

-- `(uint32_t)(i + 1) % size`
unfoldable pub next : ℕ → ℕ → ℕ
next i size = (i + 1) % 2 ^ 32 % size

-- The number of slots that `qswsrqueue_create` chooses, for pointers of 8 bytes and a given
-- `CACHELINE_WIDTH`. The build sets the width.
unfoldable pub slots : ℕ → ℕ → ℕ
slots width wanted =
    let n = if ltb (wanted * 8 % 2 ^ 64) width then width / 8 else wanted in
    if n % width == 0 then n else (n + (width - n % width)) % 2 ^ 64

-- `memory` is what the allocator returns, if it returns anything.
unfoldable pub create : ℕ → Option (ℕ → ℕ) → ℕ → Option Ring
create width memory wanted =
    let n = slots width wanted in
    if ltb (2 ^ 32 - 1) n then none else elim memory [
      | none ↦ none
      | some e ↦ some (record { head = 0; size = n; tail = 0; size2 = n; elements = e })
    ]

-- True is `QTHREAD_SUCCESS` and false `QTHREAD_OPFAIL`.
unfoldable pub enqueue : Ring → ℕ → Ring × Bool
enqueue q elem =
    let next_tail = next q.tail q.size in
    if next_tail == q.head
    then (q, false)
    else (record q { elements = update q.elements q.tail elem; tail = next_tail }, true)

-- One pass of the loop of `qswsrqueue_enqueue_blocking`: none while it yields.
unfoldable pub enqueue_blocking : Ring → ℕ → Option Ring
enqueue_blocking q elem =
    let next_tail = next q.tail q.size2 in
    if next_tail == q.head
    then none
    else some (record q { elements = update q.elements q.tail elem; tail = next_tail })

unfoldable pub dequeue : Ring → Ring × Option ℕ
dequeue q =
    if q.head == q.tail
    then (q, none)
    else (record q { head = next q.head q.size }, some (q.elements q.head))

-- One pass of the loop of `qswsrqueue_dequeue_blocking`.
unfoldable pub dequeue_blocking : Ring → Option (Ring × ℕ)
dequeue_blocking q =
    let next_head = next q.head q.size in
    if next_head == q.tail then none else some (record q { head = next_head }, q.elements q.head)

unfoldable pub is_empty : Ring → Bool
is_empty q = q.head == q.tail
