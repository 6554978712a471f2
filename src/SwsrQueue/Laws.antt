-- ===== src/SwsrQueue/Laws.antt =====
-- The operations of src/ds/qswsrqueue.c against the queue that the ring stands for.
use qthreads.SwsrQueue.{Ring, next, enqueue, dequeue, dequeue_blocking}
use qthreads.SwsrQueue.Contents.{
  IsValid, after, next-after, distance, walk, contents, length-walk, walk-update, walk-snoc,
}
use qthreads.Prelude.{
  ℕ, suc, ◌+◌, ◌^◌, ◌<◌, ◌≡◌, ◌≢◌, refl, sym, ◌∙◌, ap, Bool, true, false, Option, none, some, [],
  ◌∷◌, ◌++◌, length, ◌==◌, update, update_same, if_both, on_false, inl, inr, ◌⊎◌, ◌↔◌, arith,
}

pub length-contents : (q : Ring) → length (contents q) ≡ distance q.head q.tail q.size
unfolding contents
length-contents q = length-walk (distance q.head q.tail q.size) q.head q.size q.elements

-- The queue after a write at the tail and a new tail.
pub push-contents :
    (q : Ring) (x : ℕ)
    → IsValid q
    → next q.tail q.size ≢ q.head
    → contents (record q { elements = update q.elements q.tail x; tail = next q.tail q.size })
      ≡ contents q ++ x ∷ []
unfolding contents
push-contents q x v room =
    let e = update q.elements q.tail x in
    let d = distance q.head q.tail q.size in
    let n = next-after q.tail q.size v.tail_fits v.narrow in
    let longer : distance q.head (next q.tail q.size) q.size ≡ suc d =
      ground (arith, n, v.head_fits, v.tail_fits, room) in
    ap (λ k. walk k q.head q.size e) longer
    ∙ walk-snoc d q.head q.tail q.size e v.head_fits v.tail_fits refl
    ∙ ap (λ r. r ++ e q.tail ∷ [])
        (walk-update d q.head q.tail q.size x q.elements v.head_fits v.tail_fits refl)
    ∙ ap (λ k. walk d q.head q.size q.elements ++ k ∷ []) (update_same q.elements q.tail x)

pub pop-contents :
    (q : Ring)
    → IsValid q
    → q.head ≢ q.tail
    → contents q ≡ q.elements q.head ∷ contents (record q { head = next q.head q.size })
unfolding contents
pop-contents q v some_left =
    let n = next-after q.head q.size v.head_fits v.narrow in
    let longer : distance q.head q.tail q.size
        ≡ suc (distance (after q.head q.size) q.tail q.size) =
      ground (arith, v.head_fits, v.tail_fits, some_left) in
    ap (λ k. walk k q.head q.size q.elements) longer
    ∙ ap (λ i. q.elements q.head ∷ walk (distance i q.tail q.size) i q.size q.elements) (sym n)

pub next-lt : (i size : ℕ) → i < size → size < 2 ^ 32 → next i size < size
next-lt i size h narrow = rw (next-after i size h narrow) (ground arith)

-- What `qswsrqueue_enqueue` does: the element goes to the end of the queue, or all but one slot is
-- in use and nothing changes.
abbrev pub Enqueued : Ring → ℕ → Ring × Bool → Type 0
Enqueued q x r =
    IsValid r.0
    × (((r.1 ≡ true) × (contents r.0 ≡ contents q ++ x ∷ []))
        ⊎ ((r ≡ (q, false)) × (length (contents q) + 1 ≡ q.size)))

-- On a valid ring `qswsrqueue_enqueue` either puts the element at the end of the queue, or the
-- queue holds one element less than there are slots and the call fails and changes nothing. The
-- ring stays valid.
pub enqueue-Enqueued : (q : Ring) (x : ℕ) → IsValid q → Enqueued q x (enqueue q x)
unfolding enqueue
enqueue-Enqueued q x v =
    let n = next-after q.tail q.size v.tail_fits v.narrow in
    if_both (Enqueued q x) (next q.tail q.size == q.head)
      (λ t. (v, inr (refl, ground (arith, n, length-contents q, v.head_fits, v.tail_fits))))
      (λ t. (
        record {
          narrow = v.narrow;
          head_fits = v.head_fits;
          tail_fits = next-lt q.tail q.size v.tail_fits v.narrow;
          copies = v.copies;
        },
        inl (refl, push-contents q x v (ground arith)),
      ))

pub empty-contents : (q : Ring) → q.head ≡ q.tail → contents q ≡ []
unfolding contents
empty-contents q h =
    let d : distance q.head q.tail q.size ≡ 0 = ground arith in
    ap (λ n. walk n q.head q.size q.elements) d

abbrev pub Dequeued : Ring → Ring × Option ℕ → Type 0
Dequeued q r =
    IsValid r.0
    × (((contents q ≡ []) × (r ≡ (q, none)))
        ⊎ ((x : ℕ) × (contents q ≡ x ∷ contents r.0) × (r.1 ≡ some x)))

-- On a valid ring `qswsrqueue_dequeue` either takes the first element off the queue, or the queue
-- is empty and the call returns nothing and changes nothing. The ring stays valid.
pub dequeue-Dequeued : (q : Ring) → IsValid q → Dequeued q (dequeue q)
unfolding dequeue
dequeue-Dequeued q v =
    if_both (Dequeued q) (q.head == q.tail) (λ t. (v, inl (empty-contents q (ground arith), refl)))
      (λ t. (
        record {
          narrow = v.narrow;
          head_fits = next-lt q.head q.size v.head_fits v.narrow;
          tail_fits = v.tail_fits;
          copies = v.copies;
        },
        inr (q.elements q.head, pop-contents q v (ground arith), refl),
      ))

-- `qswsrqueue_dequeue_blocking` tests the slot behind the head: on a valid ring of two slots or
-- more it waits exactly when the queue holds one element.
pub dequeue_blocking-eq-none :
    (q : Ring) → IsValid q → 1 < q.size → (dequeue_blocking q ≡ none) ↔ (length (contents q) ≡ 1)
unfolding dequeue_blocking
dequeue_blocking-eq-none q v big =
    let n = next-after q.head q.size v.head_fits v.narrow in
    let l = length-contents q in
    if_both (λ r. (r ≡ none) ↔ (length (contents q) ≡ 1)) (next q.head q.size == q.tail)
      (λ t. ((λ e. ground (arith, n, l, v.head_fits, v.tail_fits, big)), (λ e. refl)))
      (λ t. ((λ e. cc), (λ e. absurd (ground (arith, n, l, v.head_fits, v.tail_fits, big)))))

-- On a valid ring of two slots or more whose queue is empty, `qswsrqueue_dequeue_blocking` does not
-- wait: it returns what stands in the head's slot, and the queue then holds one element less than
-- there are slots.
pub dequeue_blocking-empty :
    (q : Ring)
    → IsValid q
    → 1 < q.size
    → contents q ≡ []
    → (r : Ring) × (dequeue_blocking q ≡ some (r, q.elements q.head))
      × (length (contents r) + 1 ≡ q.size)
unfolding dequeue_blocking
dequeue_blocking-empty q v big nothing =
    let n = next-after q.head q.size v.head_fits v.narrow in
    let l = length-contents q in
    let same : q.head ≡ q.tail = ground (arith, l, ap length nothing, v.head_fits, v.tail_fits) in
    let r = record q { head = next q.head q.size } in
    (
      r,
      on_false (λ k. k ≡ some (r, q.elements q.head)) {b = next q.head q.size == q.tail} none
          (ground (arith, n, v.head_fits, big)) refl,
      ground (arith, length-contents r, n, v.head_fits, big),
    )
