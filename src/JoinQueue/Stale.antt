-- ===== src/JoinQueue/Stale.antt =====
-- The unsynchronised queue of src/queue.c.
use qthreads.JoinQueue.{Node, Nosync, nosync_enqueue, nosync_dequeue}
use qthreads.Prelude.{ℕ, ◌≡◌, ap, none, some, update, update_same}

-- A new queue.
abbrev pub created : (ℕ → Node) → Nosync
created nodes = record { head = none; tail = none; nodes = nodes }

-- A thread joins and is taken off; then another one joins, and the queue is asked again.
abbrev pub second_round : (ℕ → Node) → ℕ → ℕ → ℕ → ℕ → Nosync
second_round nodes a t b u =
    nosync_enqueue b u (nosync_dequeue (nosync_enqueue a t (created nodes))).0

-- `qthread_queue_internal_nosync_dequeue` does not reset the tail: after one thread has joined a new
-- queue and been taken off, the next one that joins is never found, whatever memory the pool gives
-- to its node.
pub dequeue-second_round :
    (nodes : ℕ → Node) (a t b u : ℕ)
    → ((nosync_dequeue (nosync_enqueue a t (created nodes))).1 ≡ some t)
      × ((nosync_dequeue (second_round nodes a t b u)).1 ≡ none)
unfolding nosync_enqueue nosync_dequeue
dequeue-second_round nodes a t b u =
    let made : Node = record { next = none; thread = t } in
    let same = update_same nodes a made in
    (
      ap (λ (n : Node). some n.thread) same,
      ap
          (λ (n : Node).
            (nosync_dequeue (record {
              head = n.next;
              tail = some b;
              nodes =
                  let later = update (update nodes a made) b (record { next = none; thread = u }) in
                  update later a (record (later a) { next = some b });
            })).1)
          same,
    )
