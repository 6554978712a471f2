-- ===== src/MutexFifo/Refine.antt =====
-- The ready queue of src/threadqueues/mutexfifo_threadqueues.c as a list of threads.
use qthreads.Lifo.{FilterCode, filter_stack, minus_one}
use qthreads.MutexFifo.{
  ThreadqueueNode, Threadqueue, fifo_new, fifo_dequeue, fifo_enqueue, fifo_filter, fifo_free,
}
use qthreads.MutexFifo.Links.{Apart, Links, threads, last-Apart, Links-snoc}
use qthreads.MutexFifo.Filter.{filter_from-Filtered}
use qthreads.Prelude.{
  ℕ, suc, ◌+◌, ◌-◌, ◌≡◌, ◌≢◌, ◌<◌, refl, sym, ◌∙◌, ap, Option, none, some, List, [], ◌∷◌, ◌++◌,
  ◌==◌, if◌then◌else◌, update, update_same, update_ne, length, arith, eq_or_ne, inl, inr, subst,
  on_true, on_false,
}

pub data Call : Type 0 where
  enqueue_call : ℕ → ℕ → Call
  dequeue_call : Call
  filter_call : (ℕ → FilterCode) → Call

-- What a queue of threads promises: the threads after a call, and the thread that it returns, or 0.
abbrev pub promised : Call → List ℕ → List ℕ × ℕ
promised (enqueue_call node t) ts = (ts ++ t ∷ [], 0)
promised dequeue_call [] = ([], 0)
promised dequeue_call (t ∷ ts) = (ts, t)
promised (filter_call f) ts = (filter_stack f ts, 0)

abbrev pub fifo_call : ℕ → Call → Threadqueue → Option (Threadqueue × ℕ)
fifo_call fuel (enqueue_call node t) q = some (fifo_enqueue node t q, 0)
fifo_call fuel dequeue_call q = some (fifo_dequeue q)
fifo_call fuel (filter_call f) q = elim (fifo_filter fuel f q) [
  | none ↦ none
  | some after ↦ some (after, 0)
]

-- The nodes behind the dummy hold the threads of a list.
pub record IsQueue (q : Threadqueue) (ts : List ℕ) : Type 0 where
  pub nodes : List (ℕ × ℕ)
  pub chain : Links q.nodes q.head nodes q.tail
  pub holds : threads nodes ≡ ts

-- A thread that is put in is not `NULL`, and its node is none of those of the queue.
abbrev pub IsAllowed : Call → Threadqueue → List (ℕ × ℕ) → Type 0
IsAllowed (enqueue_call node t) q l = (t ≢ 0) × (node ≢ q.head) × Apart node l
IsAllowed dequeue_call q l = Unit {0}
IsAllowed (filter_call f) q l = Unit {0}

threads_snoc : (l : List (ℕ × ℕ)) (n : ℕ × ℕ) → threads (l ++ n ∷ []) ≡ threads l ++ n.1 ∷ []
threads_snoc [] n = refl
threads_snoc (m ∷ l) n = ap (λ ts. m.1 ∷ ts) (threads_snoc l n)

length-threads : (l : List (ℕ × ℕ)) → length (threads l) ≡ length l
length-threads [] = refl
length-threads (n ∷ l) = ap suc (length-threads l)

enqueue-IsQueue :
    (q : Threadqueue) (l : List (ℕ × ℕ)) (node t : ℕ)
    → Links q.nodes q.head l q.tail
    → t ≢ 0
    → node ≢ q.head
    → Apart node l
    → IsQueue (fifo_enqueue node t q) (threads l ++ t ∷ [])
unfolding fifo_enqueue
enqueue-IsQueue q l node t c pos head apart =
    let far = last-Apart q.nodes node q.head l q.tail head apart c in
    let fresh : ThreadqueueNode = record { next = none; value = t } in
    let nodes : ℕ → ThreadqueueNode = update q.nodes node fresh in
    let last : ThreadqueueNode = record (nodes q.tail) { next = some node } in
    record {
      nodes = l ++ (node, t) ∷ [];
      chain =
          Links-snoc q.nodes (update nodes q.tail last) q.head l q.tail node t c head apart
            (ap (λ (m : ThreadqueueNode). m.next) (update_same nodes q.tail last))
            (ap (λ (m : ThreadqueueNode). m.next)
              (update_ne nodes q.tail node last (λ e. far (sym e))
                ∙ update_same q.nodes node fresh))
            (ap (λ (m : ThreadqueueNode). m.value)
              (update_ne nodes q.tail node last (λ e. far (sym e))
                ∙ update_same q.nodes node fresh))
            pos
            (λ y h. elim (eq_or_ne q.tail y) [
              | inl e ↦
                  ap (λ z. (update nodes q.tail last z).value) (sym e)
                  ∙ ap (λ (m : ThreadqueueNode). m.value) (update_same nodes q.tail last)
                  ∙ ap (λ z. (nodes z).value) e
                  ∙ ap (λ (m : ThreadqueueNode). m.value)
                      (update_ne q.nodes node y fresh (λ d. h (sym d)))
              | inr n ↦
                  ap (λ (m : ThreadqueueNode). m.value)
                    (update_ne nodes q.tail y last n
                      ∙ update_ne q.nodes node y fresh (λ d. h (sym d)))
            ])
            (λ y h k.
              ap (λ (m : ThreadqueueNode). m.next)
                (update_ne nodes q.tail y last (λ d. k (sym d))
                  ∙ update_ne q.nodes node y fresh (λ d. h (sym d))));
      holds = threads_snoc l (node, t);
    }

dequeue_empty : (q : Threadqueue) → (q.nodes q.head).next ≡ none → fifo_dequeue q ≡ (q, 0)
unfolding fifo_dequeue
dequeue_empty q e = rw (fifo_dequeue, e) refl

-- The queue behind its first thread.
abbrev served : Threadqueue → ℕ → Threadqueue
served q n = record q {
  head = n;
  advisory_queuelen =
      if (q.nodes n).value == 0 then q.advisory_queuelen else minus_one q.advisory_queuelen;
}

dequeue_first :
    (q : Threadqueue) (n : ℕ)
    → (q.nodes q.head).next ≡ some n
    → fifo_dequeue q ≡ (served q n, (q.nodes n).value)
unfolding fifo_dequeue
dequeue_first q n e = rw (fifo_dequeue, e) refl

-- What a call does, as promised.
pub record Keeps (fuel : ℕ) (c : Call) (q : Threadqueue) (ts : List ℕ) : Type 0 where
  pub after : Threadqueue
  pub given : fifo_call fuel c q ≡ some (after, (promised c ts).1)
  pub queue : IsQueue after (promised c ts).0

call-Keeps :
    (fuel : ℕ) (c : Call) (q : Threadqueue) (l : List (ℕ × ℕ))
    → Links q.nodes q.head l q.tail
    → length l < fuel
    → IsAllowed c q l
    → Keeps fuel c q (threads l)
unfolding fifo_filter
call-Keeps fuel (enqueue_call node t) q l c enough (pos, head, apart) = record {
  after = fifo_enqueue node t q;
  given = refl;
  queue = enqueue-IsQueue q l node t c pos head apart;
}
call-Keeps fuel dequeue_call q [] c enough u = record {
  after = q;
  given = ap some (dequeue_empty q c.0);
  queue = record { nodes = []; chain = c; holds = refl };
}
call-Keeps fuel dequeue_call q (n ∷ l) c enough u = record {
  after = served q n.0;
  given = ap some (dequeue_first q n.0 c.0 ∙ ap (λ v. (served q n.0, v)) c.1);
  queue = record { nodes = l; chain = c.4; holds = refl };
}
call-Keeps fuel (filter_call f) q l c enough u =
    let r = filter_from-Filtered fuel f q.head l q c enough in
    record {
      after = r.after;
      given =
          ap
            (λ (o : Option Threadqueue). elim o as (λ _. Option (Threadqueue × ℕ)) [
              | none ↦ none
              | some after ↦ some (after, 0)
            ])
            r.given;
      queue = record { nodes = r.rest; chain = rw r.head r.chain; holds = r.left };
    }

-- A queue whose nodes hold the threads of a list, after a call, holds those that a queue of threads
-- promises, and the call returns the thread that it promises: an enqueue of a thread that is not NULL,
-- in a node that is not in use, puts it behind the others; a dequeue takes the first, or returns NULL
-- if there is none; a filter comes to an end, with more fuel than there are threads, and leaves the
-- threads that the filter of the stack in the other file leaves of them.
pub fifo_call-Keeps :
    (fuel : ℕ) (c : Call) (q : Threadqueue) (ts : List ℕ) (r : IsQueue q ts)
    → length ts < fuel
    → IsAllowed c q r.nodes
    → Keeps fuel c q ts
fifo_call-Keeps fuel c q ts r enough allowed =
    let same = length-threads r.nodes in
    let long = ap length r.holds in
    subst (Keeps fuel c q) r.holds
      (call-Keeps fuel c q r.nodes r.chain (omega (arith, same, long)) allowed)

-- A new queue holds no threads.
pub fifo_new-IsQueue :
    (node : ℕ) (nodes : ℕ → ThreadqueueNode)
    → (q : Threadqueue) × (fifo_new (some node) nodes ≡ some q) × IsQueue q []
unfolding fifo_new
fifo_new-IsQueue node nodes = (
  _,
  refl,
  record {
    nodes = [];
    chain = (ap (λ (m : ThreadqueueNode). m.next) (update_same nodes node _), refl);
    holds = refl;
  },
)

free-threads :
    (extra : ℕ) (q : Threadqueue) (l : List (ℕ × ℕ))
    → Links q.nodes q.head l q.tail
    → fifo_free (suc (length l + extra)) q ≡ some (threads l)
unfolding fifo_free
free-threads extra q [] c =
    on_true (λ (o : Option (List ℕ)). o ≡ some []) {b = q.head == q.tail} _ (ground (arith, c.1))
      refl
free-threads extra q (n ∷ l) c =
    let apart = last-Apart q.nodes q.head n.0 l q.tail c.2.0 c.2.1 c.4 in
    let first = dequeue_first q n.0 c.0 ∙ ap (λ v. (served q n.0, v)) c.1 in
    let k : length (n ∷ l) + extra ≡ suc (length l + extra) = omega arith in
    let rest : fifo_free (length (n ∷ l) + extra) (fifo_dequeue q).0 ≡ some (threads l) =
      ap (λ (x : Threadqueue × ℕ). fifo_free (length (n ∷ l) + extra) x.0) first
      ∙ ap (λ m. fifo_free m (served q n.0)) k
      ∙ free-threads extra (served q n.0) l c.4 in
    on_false (λ (o : Option (List ℕ)). o ≡ some (threads (n ∷ l))) {b = q.head == q.tail} _
      (ground (arith, apart))
      (ap
          (λ (o : Option (List ℕ)). elim o as (λ _. Option (List ℕ)) [
            | none ↦ none
            | some m ↦ some ((fifo_dequeue q).1 ∷ m)
          ])
          rest
        ∙ ap (λ (x : Threadqueue × ℕ). some (x.1 ∷ threads l)) first)

-- With more fuel than there are threads, the loop of `qt_threadqueue_free` takes all threads off, in
-- order.
pub fifo_free-all :
    (fuel : ℕ) (q : Threadqueue) (ts : List ℕ)
    → IsQueue q ts
    → length ts < fuel
    → fifo_free fuel q ≡ some ts
fifo_free-all fuel q ts r enough =
    let same = length-threads r.nodes in
    let long = ap length r.holds in
    let n : fuel ≡ suc (length r.nodes + (fuel - (length r.nodes + 1))) =
      omega (arith, same, long, enough) in
    ap (λ k. fifo_free k q) n
    ∙ free-threads (fuel - (length r.nodes + 1)) q r.nodes r.chain
    ∙ ap some r.holds
