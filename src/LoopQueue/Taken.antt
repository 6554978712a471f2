-- ===== src/LoopQueue/Taken.antt =====
-- src/qloop.c: one access of a worker keeps the account of the iterations that were handed out.
use qthreads.LoopQueue.Swap.{Swap, factored_value-Swap, factored_next-some}
use qthreads.LoopQueue.{
  QueueType, timed, IterationQueue, Position, enter, chunk_incr, guided_load, guided_swap,
  factored_enter, factored_load, factored_phase, factored_swap, timed_swap, running, finished,
  disabled, trapped, hand, factored_value, factored_go, step_swap,
}
use qthreads.Prelude.{
  ℕ, ◌+◌, ◌≤◌, ◌<◌, ◌≡◌, refl, sym, ◌∙◌, subst, Bool, true, false, ◌&&◌, List, [], ◌∷◌, ◌++◌, ◌==◌,
  ltb, leb, if◌then◌else◌, arith, inl, inr, Bool-cases, min, total, total-append,
}

-- 1 for a number of a range, 0 for another.
abbrev pub within : ℕ → ℕ × ℕ → ℕ
within i r = if leb r.0 i && ltb i r.1 then 1 else 0

-- How often an iteration was handed out.
abbrev pub times : ℕ → List (ℕ × ℕ) → ℕ
times i l = total (within i) l

-- Each iteration from `first` on and before `bound` once, and no other.
abbrev pub Once : ℕ → ℕ → List (ℕ × ℕ) → Type 0
Once first bound l = (i : ℕ) → times i l ≡ within i (first, bound)

pub Once-snoc :
    (first a b : ℕ) (l : List (ℕ × ℕ))
    → first ≤ a
    → a ≤ b
    → Once first a l
    → Once first b (l ++ ((a, b) ∷ []))
Once-snoc first a b l h k o i =
    let s = total-append (within i) l ((a, b) ∷ []) in let c = o i in ground (arith, s, c)

abbrev pub is_timed : QueueType → Bool
is_timed timed = true
is_timed _ = false

-- What a worker has read or computed at a place, which no other worker can make wrong. `type` is
-- whether the loop is a timed one.
abbrev pub PlaceOk : ℕ → ℕ → Bool → Position → Type 0
PlaceOk stop start type enter = Unit {0}
PlaceOk stop start type chunk_incr = type ≡ false
PlaceOk stop start type (guided_load sheps) = (type ≡ false) × (1 ≤ sheps)
PlaceOk stop start type (guided_swap sheps ret next) =
    (type ≡ false) × (1 ≤ sheps) × Swap stop ret next × (stop ≤ ret → stop ≤ start)
PlaceOk stop start type (factored_enter sheps ret) =
    (type ≡ false) × (1 ≤ sheps) × (stop ≤ ret → stop ≤ start)
PlaceOk stop start type (factored_load sheps phase) = (type ≡ false) × (1 ≤ sheps) × (phase ≤ stop)
PlaceOk stop start type (factored_phase sheps ret phase) =
    (type ≡ false) × (1 ≤ sheps) × (phase ≤ stop) × (ret < stop)
PlaceOk stop start type (factored_swap sheps phase ret next) =
    (type ≡ false) × (1 ≤ sheps) × (phase ≤ stop) × Swap stop ret next × (stop ≤ ret → stop ≤ start)
PlaceOk stop start type (timed_swap sheps slow localstart block) =
    (localstart < stop) × (1 ≤ block) × (localstart + block ≤ stop)
PlaceOk stop start type (running startat stopat) = Unit {0}
PlaceOk stop start type finished = stop ≤ start
PlaceOk stop start type disabled = Unit {0}
PlaceOk stop start type trapped = Unit {0}

-- What was handed out, and the bounds that stay.
pub record Account (first : ℕ) (q : IterationQueue) : Type 0 where
  pub once : Once first (min q.start q.stop) q.handed
  pub begun : first ≤ q.start
  pub ordered : first ≤ q.stop
  pub phased : q.phase ≤ q.stop
  pub chunked : 1 ≤ q.chunksize

abbrev pub is_running : Position → Bool
is_running (running startat stopat) = true
is_running _ = false

-- The queue and the place of a worker after one of its steps.
pub record Moved (first shep : ℕ) (q : IterationQueue) (r : IterationQueue × Position)
    : Type 0 where
  pub account : Account first r.0
  pub same_stop : r.0.stop ≡ q.stop
  pub same_type : r.0.type ≡ q.type
  pub later : q.stop ≤ q.start → q.stop ≤ r.0.start
  pub blocks : (x : ℕ) → 1 ≤ q.lastblocks x → 1 ≤ r.0.lastblocks x
  pub ok : PlaceOk q.stop r.0.start (is_timed q.type) r.1
  pub has_block : is_timed q.type ≡ true → is_running r.1 ≡ true → 1 ≤ r.0.lastblocks shep

-- A step that only reads.
pub stays :
    {first shep : ℕ} {q : IterationQueue} (p : Position)
    → Account first q
    → PlaceOk q.stop q.start (is_timed q.type) p
    → is_running p ≡ false
    → Moved first shep q (q, p)
stays p a k f = record {
  account = a;
  same_stop = refl;
  same_type = refl;
  later = λ h. h;
  blocks = λ x h. h;
  ok = k;
  has_block = λ t r. absurd (let c : true ≡ false = sym r ∙ f in cc);
}

-- The range from `start` to `b` is handed out, and `start` moves to `next`.
module _ {first : ℕ} {q : IterationQueue} (a : Account first q) (b next : ℕ)
    (open_loop : q.start < q.stop) (up : q.start ≤ b) (bound : min next q.stop ≡ b)
    (on : q.start ≤ next) where
  hands_out : Once first (min next q.stop) (q.handed ++ ((q.start, b) ∷ []))
  hands_out =
      let start : min q.start q.stop ≡ q.start = omega (arith, open_loop) in
      subst (λ x. Once first x (q.handed ++ ((q.start, b) ∷ []))) (sym bound)
        (Once-snoc first q.start b q.handed a.begun up
          (subst (λ x. Once first x q.handed) start a.once))

  pub handed-Moved :
      {shep : ℕ}
      → is_timed q.type ≡ false
      → Moved first shep q (hand q.start b (record q { start = next }), running q.start b)
  handed-Moved plain = record {
    account = record {
      once = hands_out;
      begun = omega (arith, a.begun, on);
      ordered = a.ordered;
      phased = a.phased;
      chunked = a.chunked;
    };
    same_stop = refl;
    same_type = refl;
    later = λ h. omega (arith, h, open_loop);
    blocks = λ x h. h;
    ok = tt;
    has_block = λ t r. absurd (let c : true ≡ false = sym t ∙ plain in cc);
  }

-- `start` moves on beyond the end of the loop.
pub beyond-Moved :
    {first shep : ℕ} {q : IterationQueue}
    → Account first q
    → (next : ℕ) → q.stop ≤ q.start
    → q.stop ≤ next
    → Moved first shep q (record q { start = next }, finished)
beyond-Moved {first} {shep} {q} a next closed far = record {
  account = record {
    once =
        let e : min q.start q.stop ≡ min next q.stop = omega (arith, closed, far) in
        subst (λ x. Once first x q.handed) e a.once;
    begun = let o = a.ordered in omega (arith, o, far);
    ordered = a.ordered;
    phased = a.phased;
    chunked = a.chunked;
  };
  same_stop = refl;
  same_type = refl;
  later = λ h. far;
  blocks = λ x h. h;
  ok = far;
  has_block = λ t r. absurd (let c : true ≡ false = sym r in cc);
}

pub step_swap-Moved :
    {first shep : ℕ} {q : IterationQueue} (ret next : ℕ) (again : Position)
    → Account first q
    → is_timed q.type ≡ false
    → Swap q.stop ret next
    → (q.stop ≤ ret → q.stop ≤ q.start)
    → PlaceOk q.stop q.start (is_timed q.type) again
    → is_running again ≡ false
    → Moved first shep q (step_swap q ret next again)
unfolding step_swap
step_swap-Moved {first} {shep} {q} ret next again a plain s seen k f =
    elim (Bool-cases (q.start == ret)) [
      | inl e ↦
          let c : ret ≡ q.start = ground (arith, e) in
          elim (Bool-cases (ltb ret q.stop)) [
            | inl l ↦
                let few : ret < q.stop = ground (arith, l) in
                let w = s.0 few in
                rw (e, l)
                  (subst
                    (λ x.
                      Moved first shep q (hand x next (record q { start = next }), running x next))
                    (sym c)
                    (handed-Moved a next next (omega (arith, few, c)) (omega (arith, w.0, c))
                      (omega (arith, w.1)) (omega (arith, w.0, c)) plain))
            | inr l ↦
                let far : q.stop ≤ ret = ground (arith, l) in
                rw (e, l) (beyond-Moved a next (seen far) (s.1 far))
          ]
      | inr e ↦ elim (Bool-cases (ltb ret q.stop)) [
        | inl l ↦ rw (e, l) (stays again a k f)
        | inr l ↦
            let far : q.stop ≤ ret = ground (arith, l) in
            rw (e, l) (stays finished a (seen far) refl)
      ]
    ]

-- Where `factored` goes with a phase.
pub factored_go-Moved :
    {first shep : ℕ} {q : IterationQueue} (sheps phase ret : ℕ)
    → Account first q
    → is_timed q.type ≡ false
    → 1 ≤ sheps
    → phase ≤ q.stop
    → (q.stop ≤ ret → q.stop ≤ q.start)
    → Moved first shep q (q, factored_go q.stop sheps phase ret)
unfolding factored_go
factored_go-Moved {q = q} sheps phase ret a plain some_shep low seen =
    elim (Bool-cases (leb phase ret && ltb ret q.stop)) [
      | inl t ↦
          let few : ret < q.stop = ground (arith, t) in
          rw t (stays (factored_phase sheps ret phase) a (plain, some_shep, low, few) refl)
      | inr t ↦
          let above : ret < q.stop → ret < phase = λ l. ground (arith, t, l) in
          rw (t, factored_next-some q.stop sheps phase ret some_shep)
            (stays (factored_swap sheps phase ret (factored_value q.stop sheps phase ret)) a
              (
                plain,
                some_shep,
                low,
                factored_value-Swap q.stop sheps phase ret some_shep above,
                seen,
              )
              refl)
    ]
