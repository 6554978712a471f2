-- ===== src/Lifo/Order.antt =====
-- In which order the threads of the stack come off it.
use qthreads.Lifo.{
  Queue, minus_one, FilterCode, dequeue, enqueue, enqueue_yielded, filter_stack, free,
}
use qthreads.Prelude.{
  ℕ, suc, ◌+◌, ◌≡◌, refl, ◌∙◌, ap, Bool, true, false, List, [], ◌∷◌, ◌++◌, length, length-append,
  list_both, not, if◌then◌else◌, ◌<◌, ◌-◌, arith,
}

-- As much fuel as there are threads and one more is enough to empty the stack, from the top.
free-stack :
    (extra : ℕ) (ts : List ℕ) (n : ℕ)
    → free (suc (length ts + extra)) (record { stack = ts; advisory_queuelen = n }) ≡ ts
unfolding free dequeue
free-stack extra [] n = refl
free-stack extra (t ∷ ts) n =
    let fuel : length (t ∷ ts) + extra ≡ suc (length ts + extra) = omega arith in
    ap (λ k. t ∷ free k (record { stack = ts; advisory_queuelen = minus_one n })) fuel
    ∙ ap (λ r. t ∷ r) (free-stack extra ts (minus_one n))

pub free-eq : (fuel : ℕ) (q : Queue) → length q.stack < fuel → free fuel q ≡ q.stack
free-eq fuel q h =
    let n : fuel ≡ suc (length q.stack + (fuel - (length q.stack + 1))) = omega arith in
    ap (λ k. free k q) n ∙ free-stack (fuel - (length q.stack + 1)) q.stack q.advisory_queuelen

pub enqueue_yielded-stack : (q : Queue) (t : ℕ) → (enqueue_yielded q t).stack ≡ q.stack ++ t ∷ []
unfolding enqueue_yielded enqueue
enqueue_yielded-stack q t =
    list_both (λ (r : Queue) l. r.stack ≡ l ++ t ∷ []) q.stack (λ e. ap (λ l. t ∷ l) e)
      (λ u us e. refl)

-- A thread that has yielded comes off the stack after all that were there, when the loop of
-- `qt_threadqueue_free` has more fuel than there are threads then.
pub free-enqueue_yielded :
    (fuel : ℕ) (q : Queue) (t : ℕ)
    → length q.stack + 1 < fuel
    → free fuel (enqueue_yielded q t) ≡ q.stack ++ t ∷ []
free-enqueue_yielded fuel q t h =
    let e = enqueue_yielded-stack q t in
    let l : length (enqueue_yielded q t).stack ≡ length q.stack + 1 =
      ap length e ∙ length-append q.stack (t ∷ []) in
    free-eq fuel (enqueue_yielded q t) (omega (arith, l)) ∙ e

-- A filter that is left after the first thread with a code of the stopping kind.
abbrev pub stops : FilterCode → Bool
stops FilterCode.ignore_and_continue = false
stops FilterCode.ignore_and_stop = true
stops FilterCode.remove_and_continue = false
stops FilterCode.remove_and_stop = true

abbrev pub removes : FilterCode → Bool
removes FilterCode.ignore_and_continue = false
removes FilterCode.ignore_and_stop = false
removes FilterCode.remove_and_continue = true
removes FilterCode.remove_and_stop = true

abbrev pub looked : (ℕ → FilterCode) → List ℕ → List ℕ
looked f [] = []
looked f (t ∷ ts) = t ∷ (if stops (f t) then [] else looked f ts)

abbrev pub below : (ℕ → FilterCode) → List ℕ → List ℕ
below f [] = []
below f (t ∷ ts) = if stops (f t) then ts else below f ts

abbrev pub keep : (ℕ → Bool) → List ℕ → List ℕ
keep p [] = []
keep p (t ∷ ts) = if p t then t ∷ keep p ts else keep p ts

-- The threads that a filter looks at, from the top to the first with a stopping code, followed by
-- those below, are the stack; and the filter leaves the former less those whose code says to remove
-- them, in their order, followed by the latter.
pub filter_stack-eq :
    (f : ℕ → FilterCode) (ts : List ℕ)
    → (looked f ts ++ below f ts ≡ ts)
      × (filter_stack f ts ≡ keep (λ t. not (removes (f t))) (looked f ts) ++ below f ts)
unfolding filter_stack
filter_stack-eq f [] = (refl, refl)
filter_stack-eq f (t ∷ ts) =
    let (whole, kept) = filter_stack-eq f ts in
    let p = λ (u : ℕ). not (removes (f u)) in
    let Goal : FilterCode → Type 0 = λ c.
      ((t ∷ (if stops c then [] else looked f ts)) ++ (if stops c then ts else below f ts) ≡ t ∷ ts)
      × ((elim c [
        | FilterCode.ignore_and_continue ↦ t ∷ filter_stack f ts
        | FilterCode.ignore_and_stop ↦ t ∷ ts
        | FilterCode.remove_and_continue ↦ filter_stack f ts
        | FilterCode.remove_and_stop ↦ ts
      ])
          ≡ (if not (removes c)
              then t ∷ keep p (if stops c then [] else looked f ts)
              else keep p (if stops c then [] else looked f ts))
            ++ (if stops c then ts else below f ts)) in
    elim (f t) as Goal [
      | FilterCode.ignore_and_continue ↦ (ap (λ l. t ∷ l) whole, ap (λ l. t ∷ l) kept)
      | FilterCode.ignore_and_stop ↦ (refl, refl)
      | FilterCode.remove_and_continue ↦ (ap (λ l. t ∷ l) whole, kept)
      | FilterCode.remove_and_stop ↦ (refl, refl)
    ]
