-- ===== src/MutexFifo/Filter.antt =====
-- The filter of src/threadqueues/mutexfifo_threadqueues.c on the chain of nodes.
use qthreads.Lifo.{FilterCode, filter_stack}
use qthreads.MutexFifo.{ThreadqueueNode, Threadqueue, unlink, filter_from}
use qthreads.MutexFifo.Links.{Apart, Links, threads, unlink-Links}
use qthreads.Prelude.{
  ℕ, zero, suc, ◌≡◌, ◌≢◌, ◌<◌, refl, sym, ◌∙◌, ap, Option, some, List, [], ◌∷◌, update_same,
  update_ne, length, arith,
}

-- What the loop of the filter gives from a node on: a chain of the threads that are left. Nodes in
-- front are as they were, and the first node keeps its thread.
pub record Filtered (f : ℕ → FilterCode) (a : ℕ) (l : List (ℕ × ℕ)) (q : Threadqueue)
    (o : Option Threadqueue) : Type 0 where
  pub after : Threadqueue
  pub given : o ≡ some after
  pub rest : List (ℕ × ℕ)
  pub chain : Links after.nodes a rest after.tail
  pub left : threads rest ≡ filter_stack f (threads l)
  pub apart : (y : ℕ) → Apart y l → Apart y rest
  pub front : (y : ℕ) → y ≢ a → Apart y l → after.nodes y ≡ q.nodes y
  pub value : (after.nodes a).value ≡ (q.nodes a).value
  pub head : after.head ≡ q.head
  pub queuelen : after.advisory_queuelen ≡ q.advisory_queuelen

stopped-Filtered :
    (f : ℕ → FilterCode) (a : ℕ) (l : List (ℕ × ℕ)) (q : Threadqueue)
    → Links q.nodes a l q.tail
    → threads l ≡ filter_stack f (threads l)
    → Filtered f a l q (some q)
stopped-Filtered f a l q c e = record {
  after = q;
  given = refl;
  rest = l;
  chain = c;
  left = e;
  apart = λ y h. h;
  front = λ y h k. refl;
  value = refl;
  head = refl;
  queuelen = refl;
}

-- The loop goes on behind a node that stays.
skipped-Filtered :
    (f : ℕ → FilterCode) (a : ℕ) (n : ℕ × ℕ) (l : List (ℕ × ℕ)) (q : Threadqueue)
    (o : Option Threadqueue)
    → Links q.nodes a (n ∷ l) q.tail
    → n.1 ∷ filter_stack f (threads l) ≡ filter_stack f (threads (n ∷ l))
    → Filtered f n.0 l q o
    → Filtered f a (n ∷ l) q o
skipped-Filtered f a n l q o (e, v, d, pos, more) k r =
    let here = r.front a d.0 d.1 in
    record {
      after = r.after;
      given = r.given;
      rest = n ∷ r.rest;
      chain = (
        ap (λ (m : ThreadqueueNode). m.next) here ∙ e,
        r.value ∙ v,
        (d.0, r.apart a d.1),
        pos,
        r.chain,
      );
      left = ap (λ x. n.1 ∷ x) r.left ∙ k;
      apart = λ y h. (h.0, r.apart y h.1);
      front = λ y h m. r.front y m.0 m.1;
      value = ap (λ (m : ThreadqueueNode). m.value) here;
      head = r.head;
      queuelen = r.queuelen;
    }

-- The loop goes on, or ends, after a node that is taken out.
dropped-Filtered :
    (f : ℕ → FilterCode) (a : ℕ) (n : ℕ × ℕ) (l : List (ℕ × ℕ)) (q : Threadqueue)
    (o : Option Threadqueue)
    → filter_stack f (threads l) ≡ filter_stack f (threads (n ∷ l))
    → Filtered f a l (unlink a n.0 q) o
    → Filtered f a (n ∷ l) q o
unfolding unlink
dropped-Filtered f a n l q o k r = record {
  after = r.after;
  given = r.given;
  rest = r.rest;
  chain = r.chain;
  left = r.left ∙ k;
  apart = λ y h. r.apart y h.1;
  front = λ y h m. r.front y h m.1 ∙ update_ne q.nodes a y _ (λ c. h (sym c));
  value = r.value ∙ ap (λ (m : ThreadqueueNode). m.value) (update_same q.nodes a _);
  head = r.head;
  queuelen = r.queuelen;
}

-- The loop ends after a node that is taken out.
unlinked-Filtered :
    (f : ℕ → FilterCode) (a : ℕ) (n : ℕ × ℕ) (l : List (ℕ × ℕ)) (q : Threadqueue)
    → f n.1 ≡ FilterCode.remove_and_stop
    → Links q.nodes a (n ∷ l) q.tail
    → Filtered f a (n ∷ l) q (some (unlink a n.0 q))
unfolding unlink filter_stack
unlinked-Filtered f a n l q e c = record {
  after = unlink a n.0 q;
  given = refl;
  rest = l;
  chain = unlink-Links q a n l c;
  left = rw e refl;
  apart = λ y h. h.1;
  front = λ y h m. update_ne q.nodes a y _ (λ d. h (sym d));
  value = ap (λ (m : ThreadqueueNode). m.value) (update_same q.nodes a _);
  head = refl;
  queuelen = refl;
}

after_unlink : (a n : ℕ) (q : Threadqueue) → ((unlink a n q).nodes a).next ≡ (q.nodes n).next
unfolding unlink
after_unlink a n q = ap (λ (m : ThreadqueueNode). m.next) (update_same q.nodes a _)

filter_nil : (f : ℕ → FilterCode) → [] ≡ filter_stack f []
unfolding filter_stack
filter_nil f = refl

-- One pass of the loop, from what the rest of the loop does where it goes on.
filter_step :
    (code : FilterCode) (f : ℕ → FilterCode) (a : ℕ) (n : ℕ × ℕ) (l : List (ℕ × ℕ))
    (q : Threadqueue) (skip drop : Option Threadqueue)
    → f n.1 ≡ code
    → Links q.nodes a (n ∷ l) q.tail
    → Filtered f n.0 l q skip
    → Filtered f a l (unlink a n.0 q) drop
    → Filtered f a (n ∷ l) q (elim code [
      | FilterCode.ignore_and_continue ↦ skip
      | FilterCode.ignore_and_stop ↦ some q
      | FilterCode.remove_and_continue ↦ drop
      | FilterCode.remove_and_stop ↦ some (unlink a n.0 q)
    ])
unfolding filter_stack
filter_step FilterCode.ignore_and_continue f a n l q skip drop e c s d =
    skipped-Filtered f a n l q skip c (rw e refl) s
filter_step FilterCode.ignore_and_stop f a n l q skip drop e c s d =
    stopped-Filtered f a (n ∷ l) q c (rw e refl)
filter_step FilterCode.remove_and_continue f a n l q skip drop e c s d =
    dropped-Filtered f a n l q drop (rw e refl) d
filter_step FilterCode.remove_and_stop f a n l q skip drop e c s d = unlinked-Filtered f a n l q e c

pub filter_from-Filtered :
    (fuel : ℕ) (f : ℕ → FilterCode) (a : ℕ) (l : List (ℕ × ℕ)) (q : Threadqueue)
    → Links q.nodes a l q.tail
    → length l < fuel
    → Filtered f a l q (filter_from fuel f a (q.nodes a).next q)
unfolding filter_from
filter_from-Filtered zero f a l q c enough = absurd (omega arith)
filter_from-Filtered (suc fuel) f a [] q c enough =
    rw c.0 (stopped-Filtered f a [] q c (filter_nil f))
filter_from-Filtered (suc fuel) f a (n ∷ l) q c enough =
    let skip = filter_from-Filtered fuel f n.0 l q c.4 (omega arith) in
    let drop =
      rw (after_unlink a n.0 q) at
        (filter_from-Filtered fuel f a l (unlink a n.0 q) (unlink-Links q a n l c) (omega arith)) in
    rw c.0 (filter_step (f (q.nodes n.0).value) f a n l q _ _ (ap f (sym c.1)) c skip drop)
