-- ===== src/Lifo/Account.antt =====
-- What becomes of the threads that go through a ready queue, over any sequence of calls.
use qthreads.Lifo.{
  Queue, FilterCode, threadqueue_new, plus_one, minus_one, dequeue, enqueue, enqueue_yielded,
  filter_stack, filter,
}
use qthreads.Lifo.Order.{removes, stops, enqueue_yielded-stack}
use qthreads.Prelude.{
  ℕ, ◌+◌, ◌-◌, ◌%◌, ◌^◌, ◌≡◌, refl, ◌∙◌, ap, Option, none, some, List, [], ◌∷◌, ◌++◌, length,
  length-append, same, occurs, total, total-append, list_both, if◌then◌else◌, arith,
}

pub data Call : Type 0 where
  enqueue_call : ℕ → Call
  yield_call : ℕ → Call
  dequeue_call : Call
  filter_call : (ℕ → FilterCode) → Call

-- The queue, and the threads that were put in, handed out, and removed by filters.
pub record Run : Type 0 where
  pub queue : Queue
  pub put : List ℕ
  pub served : List ℕ
  pub removed : List ℕ

-- The threads that a filter removes.
abbrev pub dropped : (ℕ → FilterCode) → List ℕ → List ℕ
dropped f [] = []
dropped f (t ∷ ts) =
    let rest = if stops (f t) then [] else dropped f ts in if removes (f t) then t ∷ rest else rest

abbrev pub handed : Option ℕ → List ℕ → List ℕ
handed none l = l
handed (some t) l = t ∷ l

unfoldable pub step : Call → Run → Run
step (enqueue_call t) r = record r { queue = enqueue r.queue t; put = t ∷ r.put }
step (yield_call t) r = record r { queue = enqueue_yielded r.queue t; put = t ∷ r.put }
step dequeue_call r = record r {
  queue = (dequeue r.queue).0;
  served = handed (dequeue r.queue).1 r.served;
}
step (filter_call f) r = record r {
  queue = filter f r.queue;
  removed = dropped f r.queue.stack ++ r.removed;
}

unfoldable pub run : List Call → Run
run [] = record { queue = threadqueue_new; put = []; served = []; removed = [] }
run (c ∷ cs) = step c (run cs)

-- Each thread that was put in is in the stack, was handed out, or was removed; and the advisory
-- length counts the stack and what was removed.
pub record IsAccounted (r : Run) : Type 0 where
  pub threads :
      (t : ℕ) → occurs t r.queue.stack + occurs t r.served + occurs t r.removed ≡ occurs t r.put
  pub queuelen : r.queue.advisory_queuelen ≡ (length r.queue.stack + length r.removed) % 2 ^ 64

filter_stack-total :
    (w : ℕ → ℕ) (f : ℕ → FilterCode) (ts : List ℕ)
    → total w (filter_stack f ts) + total w (dropped f ts) ≡ total w ts
unfolding filter_stack
filter_stack-total w f [] = refl
filter_stack-total w f (t ∷ ts) =
    let i = filter_stack-total w f ts in
    elim (f t)
      as (λ c.
        total w (elim c [
          | FilterCode.ignore_and_continue ↦ t ∷ filter_stack f ts
          | FilterCode.ignore_and_stop ↦ t ∷ ts
          | FilterCode.remove_and_continue ↦ filter_stack f ts
          | FilterCode.remove_and_stop ↦ ts
        ])
          + total w (
              if removes c
              then t ∷ (if stops c then [] else dropped f ts)
              else if stops c
              then []
              else dropped f ts)
        ≡ w t + total w ts) [
          | FilterCode.ignore_and_continue ↦ omega (arith, i)
          | FilterCode.ignore_and_stop ↦ omega arith
          | FilterCode.remove_and_continue ↦ omega (arith, i)
          | FilterCode.remove_and_stop ↦ omega arith
        ]

length-total : (l : List ℕ) → total (λ t. 1) l ≡ length l
length-total [] = refl
length-total (t ∷ ts) = omega (arith, length-total ts)

new-IsAccounted : IsAccounted (run [])
unfolding run threadqueue_new
new-IsAccounted = record { threads = λ t. refl; queuelen = refl }

enqueue-IsAccounted : (t : ℕ) (r : Run) → IsAccounted r → IsAccounted (step (enqueue_call t) r)
unfolding step enqueue plus_one
enqueue-IsAccounted t r a = record {
  threads = λ u. omega (arith, a.threads u);
  queuelen = ap (λ n. (n + 1) % 2 ^ 64) a.queuelen ∙ omega arith;
}

enqueue_yielded-queuelen :
    (q : Queue) (t : ℕ)
    → (enqueue_yielded q t).advisory_queuelen ≡ (q.advisory_queuelen + 1) % 2 ^ 64
unfolding enqueue_yielded enqueue plus_one
enqueue_yielded-queuelen q t =
    list_both (λ (r : Queue) l. r.advisory_queuelen ≡ (q.advisory_queuelen + 1) % 2 ^ 64) q.stack
      (λ e. refl) (λ u us e. refl)

yield-IsAccounted : (t : ℕ) (r : Run) → IsAccounted r → IsAccounted (step (yield_call t) r)
unfolding step
yield-IsAccounted t r a =
    let e = enqueue_yielded-stack r.queue t in
    record {
      threads = λ u.
          ap (λ l. occurs u l + occurs u r.served + occurs u r.removed) e
          ∙ omega (arith, total-append (same u) r.queue.stack (t ∷ []), a.threads u);
      queuelen =
          enqueue_yielded-queuelen r.queue t
          ∙ ap (λ n. (n + 1) % 2 ^ 64) a.queuelen
          ∙ omega (arith, ap length e, length-append r.queue.stack (t ∷ []));
    }

dequeue-IsAccounted : (r : Run) → IsAccounted r → IsAccounted (step dequeue_call r)
unfolding step dequeue minus_one
dequeue-IsAccounted r a =
    list_both
      (λ (x : Queue × Option ℕ) l.
        IsAccounted (record r { queue = x.0; served = handed x.1 r.served }))
      r.queue.stack (λ e. record { threads = a.threads; queuelen = a.queuelen })
      (λ t ts e. record {
        threads = λ u. omega (arith, ap (occurs u) e, a.threads u);
        queuelen = ap (λ n. (n + (2 ^ 64 - 1)) % 2 ^ 64) a.queuelen ∙ omega (arith, ap length e);
      })

filter-IsAccounted :
    (f : ℕ → FilterCode) (r : Run) → IsAccounted r → IsAccounted (step (filter_call f) r)
unfolding step filter
filter-IsAccounted f r a = record {
  threads = λ u. omega (
    arith,
    filter_stack-total (same u) f r.queue.stack,
    total-append (same u) (dropped f r.queue.stack) r.removed,
    a.threads u,
  );
  queuelen =
      a.queuelen
      ∙ ap (λ n. n % 2 ^ 64)
          (omega (
            arith,
            filter_stack-total (λ t. 1) f r.queue.stack,
            length-total r.queue.stack,
            length-total (filter_stack f r.queue.stack),
            length-total (dropped f r.queue.stack),
            length-append (dropped f r.queue.stack) r.removed,
          ));
}

-- After any sequence of enqueues, yields, dequeues and filters of a new ready queue: each thread
-- stands in the stack, among those handed out and among those that filters removed together as
-- often as it was put in; and `advisory_queuelen` is, modulo 2 ^ 64, the number of threads in the
-- stack and of those that filters removed.
pub run-IsAccounted : (cs : List Call) → IsAccounted (run cs)
unfolding run
run-IsAccounted [] = new-IsAccounted
run-IsAccounted (enqueue_call t ∷ cs) = enqueue-IsAccounted t (run cs) (run-IsAccounted cs)
run-IsAccounted (yield_call t ∷ cs) = yield-IsAccounted t (run cs) (run-IsAccounted cs)
run-IsAccounted (dequeue_call ∷ cs) = dequeue-IsAccounted (run cs) (run-IsAccounted cs)
run-IsAccounted (filter_call f ∷ cs) = filter-IsAccounted f (run cs) (run-IsAccounted cs)
