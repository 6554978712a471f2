-- ===== src/LoopQueue/Run.antt =====
-- src/qloop.c: loops with a shared queue of iterations, whatever the order of the workers' accesses.
use native.Mathlib.Nat.{mod-eq_of_lt}
use qthreads.LoopQueue.Access.{step_place-Moved}
use qthreads.LoopQueue.Taken.{Account, PlaceOk, Moved, is_timed, is_running, within, times}
use qthreads.LoopQueue.{
  QueueType, IterationQueue, Position, enter, chunk_incr, guided_load, guided_swap, factored_enter,
  factored_load, factored_phase, factored_swap, timed_swap, running, finished, disabled, trapped,
  is_trapped, Event, Worker, LoopSystem, step_place, step_range, queue_moved, queue_step,
  queue_create,
}
use qthreads.Loop.{word}
use qthreads.Prelude.{
  ℕ, ◌+◌, ◌%◌, ◌^◌, ◌≤◌, ◌<◌, ◌≡◌, ◌≢◌, refl, sym, ◌∙◌, ap, subst, Bool, true, false, arith, inl,
  inr, Bool-cases, min, Option, some, ltb, if_both, update, eq_or_ne, update_same, update_ne,
}

-- The account, and what every worker has read so far.
pub record Sound (first last : ℕ) (shep_of : ℕ → ℕ) (s : LoopSystem) : Type 0 where
  pub account : Account first s.iq
  pub bound : s.iq.stop ≡ last
  pub places : (w : ℕ) → PlaceOk s.iq.stop s.iq.start (is_timed s.iq.type) (s.workers w).place
  pub blocks :
      (w : ℕ)
      → is_timed s.iq.type ≡ true
      → (s.workers w).range_step ≢ 0
      → 1 ≤ s.iq.lastblocks (shep_of w)

-- The step of another worker does no harm.
PlaceOk-later :
    (stop start later : ℕ) (t : Bool) (p : Position)
    → (stop ≤ start → stop ≤ later)
    → PlaceOk stop start t p
    → PlaceOk stop later t p
PlaceOk-later stop start later t enter h k = k
PlaceOk-later stop start later t chunk_incr h k = k
PlaceOk-later stop start later t (guided_load sheps) h k = k
PlaceOk-later stop start later t (guided_swap sheps ret next) h (a, b, c, d) =
    (a, b, c, (λ x. h (d x)))
PlaceOk-later stop start later t (factored_enter sheps ret) h (a, b, c) = (a, b, (λ x. h (c x)))
PlaceOk-later stop start later t (factored_load sheps phase) h k = k
PlaceOk-later stop start later t (factored_phase sheps ret phase) h k = k
PlaceOk-later stop start later t (factored_swap sheps phase ret next) h (a, b, c, d, e) =
    (a, b, c, d, (λ x. h (e x)))
PlaceOk-later stop start later t (timed_swap sheps slow localstart block) h k = k
PlaceOk-later stop start later t (running startat stopat) h k = k
PlaceOk-later stop start later t finished h k = h k
PlaceOk-later stop start later t disabled h k = k
PlaceOk-later stop start later t trapped h k = k

step_range-still :
    (q : IterationQueue) (p : Position) (range_step : ℕ)
    → is_running p ≡ false
    → step_range q p range_step ≡ range_step
unfolding step_range
step_range-still q (running startat stopat) range_step h = absurd (let c : true ≡ false = h in cc)
step_range-still q enter range_step h = refl
step_range-still q chunk_incr range_step h = refl
step_range-still q (guided_load sheps) range_step h = refl
step_range-still q (guided_swap sheps ret next) range_step h = refl
step_range-still q (factored_enter sheps ret) range_step h = refl
step_range-still q (factored_load sheps phase) range_step h = refl
step_range-still q (factored_phase sheps ret phase) range_step h = refl
step_range-still q (factored_swap sheps phase ret next) range_step h = refl
step_range-still q (timed_swap sheps slow localstart block) range_step h = refl
step_range-still q finished range_step h = refl
step_range-still q disabled range_step h = refl
step_range-still q trapped range_step h = refl

queue_moved-Sound :
    {first last : ℕ} {shep_of : ℕ → ℕ} {s : LoopSystem}
    → Sound first last shep_of s
    → (e : Event) → 1 ≤ e.sheps
    → Sound first last shep_of (queue_moved shep_of e s)
unfolding queue_moved
queue_moved-Sound {first} {last} {shep_of} {s} k e some_shep =
    let w : Worker = s.workers e.who in
    let r : IterationQueue × Position = step_place s.iq e (shep_of e.who) w.range_step w.place in
    let new : Worker = record { place = r.1; range_step = step_range s.iq r.1 w.range_step } in
    let m : Moved first (shep_of e.who) s.iq r =
      step_place-Moved k.account e (shep_of e.who) w.range_step some_shep (k.blocks e.who) w.place
        (k.places e.who) in
    let kind = ap is_timed m.same_type in
    record {
      account = m.account;
      bound = m.same_stop ∙ k.bound;
      places = λ v.
          subst (λ x. PlaceOk x r.0.start (is_timed r.0.type) (update s.workers e.who new v).place)
            (sym m.same_stop)
            (subst (λ x. PlaceOk s.iq.stop r.0.start x (update s.workers e.who new v).place)
              (sym kind)
              (elim (eq_or_ne e.who v) [
                | inl c ↦
                    subst (λ x. PlaceOk s.iq.stop r.0.start (is_timed s.iq.type) x.place)
                      (sym (ap (λ y. update s.workers y new v) c ∙ update_same s.workers v new))
                      m.ok
                | inr c ↦
                    subst (λ x. PlaceOk s.iq.stop r.0.start (is_timed s.iq.type) x.place)
                      (sym (update_ne s.workers e.who v new c))
                      (PlaceOk-later s.iq.stop s.iq.start r.0.start (is_timed s.iq.type)
                        (s.workers v).place m.later (k.places v))
              ]));
      blocks = λ v t stepped.
          let on : is_timed s.iq.type ≡ true = sym kind ∙ t in
          elim (eq_or_ne e.who v) [
            | inl c ↦
                let here : update s.workers e.who new v ≡ new =
                  ap (λ y. update s.workers y new v) c ∙ update_same s.workers v new in
                subst (λ x. 1 ≤ r.0.lastblocks (shep_of x)) c
                  (elim (Bool-cases (is_running r.1)) [
                    | inl y ↦ m.has_block on y
                    | inr y ↦ m.blocks (shep_of e.who) (
                        k.blocks e.who on (λ z. stepped (
                          ap (λ x. x.range_step) here
                          ∙ step_range-still s.iq r.1 w.range_step y
                          ∙ z)))
                  ])
            | inr c ↦ m.blocks (shep_of v) (
                k.blocks v on
                  (λ z. stepped (ap (λ x. x.range_step) (update_ne s.workers e.who v new c) ∙ z)))
          ];
    }

queue_step-moved :
    (shep_of : ℕ → ℕ) (e : Event) (s t : LoopSystem)
    → queue_step shep_of e s ≡ some t
    → queue_moved shep_of e s ≡ t
unfolding queue_step
queue_step-moved shep_of e s t =
    let u : LoopSystem = queue_moved shep_of e s in
    let Goal : Option LoopSystem → Type 0 = λ o. o ≡ some t → u ≡ t in
    if_both Goal (is_trapped (u.workers e.who).place) (λ y h. cc)
      (λ y. if_both Goal (ltb u.iq.start (2 ^ 63)) (λ z h. cc) (λ z h. cc))

-- What can be reached by accesses of the workers in any order, with at least one active shepherd, as
-- long as `start` stays in its signed word and no divisor of a TIMED loop is 0 or leaves its word.
pub data QueueReach (shep_of : ℕ → ℕ) (s : LoopSystem) : LoopSystem → Type 0 where
  begun : QueueReach shep_of s s
  next :
      {t u : LoopSystem} (e : Event)
      → QueueReach shep_of s t
      → 1 ≤ e.sheps
      → queue_step shep_of e t ≡ some u
      → QueueReach shep_of s u

QueueReach-Sound :
    {first last : ℕ} {shep_of : ℕ → ℕ} {s t : LoopSystem}
    → QueueReach shep_of s t
    → Sound first last shep_of s
    → Sound first last shep_of t
QueueReach-Sound begun k = k
QueueReach-Sound {first} {last} {shep_of} (next {t} {u} e r some_shep stepped) k =
    subst (Sound first last shep_of) (queue_step-moved shep_of e t u stepped)
      (queue_moved-Sound (QueueReach-Sound r k) e some_shep)

queue_create-Sound :
    (type : QueueType) (start stop incr num_workers : ℕ) (lastblocks shep_of : ℕ → ℕ)
    → start ≤ stop
    → stop < 2 ^ 62
    → Sound start stop shep_of (queue_create type start stop incr num_workers lastblocks)
unfolding queue_create word
queue_create-Sound type start stop incr num_workers lastblocks shep_of h small = record {
  account = record {
    once = λ i. ground (arith, h);
    begun = omega arith;
    ordered = h;
    phased =
        let e : (start + stop) % 2 ^ 64 ≡ start + stop = mod-eq_of_lt (omega (arith, h, small)) in
        omega (arith, e, h);
    chunked = ground arith;
  };
  bound = refl;
  places = λ w. tt;
  blocks = λ w t stepped. absurd (stepped refl);
}

-- However the accesses of the workers of a loop interleave, in each of the four ways: the ranges that
-- were handed out hold each iteration before the common start once, and nothing else. There is a
-- worker, the loop starts no later than it stops, and stops below 2 ^ 62; there is always an active
-- shepherd, no divisor of a TIMED loop is 0 or leaves its word, and nor does the common start.
pub QueueReach-Once :
    (type : QueueType) (start stop incr num_workers : ℕ) (lastblocks shep_of : ℕ → ℕ)
    (t : LoopSystem)
    → 0 < num_workers
    → start ≤ stop
    → stop < 2 ^ 62
    → QueueReach shep_of (queue_create type start stop incr num_workers lastblocks) t
    → (i : ℕ) → times i t.iq.handed ≡ within i (start, min t.iq.start stop)
QueueReach-Once type start stop incr num_workers lastblocks shep_of t any h small r i =
    let k =
      QueueReach-Sound r
        (queue_create-Sound type start stop incr num_workers lastblocks shep_of h small) in
    k.account.once i ∙ ap (λ x. within i (start, min t.iq.start x)) k.bound

-- However the accesses of the workers interleave, in each of the four ways: when some worker has
-- finished, each iteration of the loop was handed out exactly once, and nothing else. There is a
-- worker, the loop starts no later than it stops, and stops below 2 ^ 62; there is always an active
-- shepherd, no divisor of a TIMED loop is 0 or leaves its word, and nor does the common start.
pub QueueReach-Finished :
    (type : QueueType) (start stop incr num_workers : ℕ) (lastblocks shep_of : ℕ → ℕ)
    (t : LoopSystem)
    → 0 < num_workers
    → start ≤ stop
    → stop < 2 ^ 62
    → QueueReach shep_of (queue_create type start stop incr num_workers lastblocks) t
    → (w : ℕ) → (t.workers w).place ≡ finished
    → (i : ℕ) → times i t.iq.handed ≡ within i (start, stop)
QueueReach-Finished type start stop incr num_workers lastblocks shep_of t any h small r w e i =
    let k =
      QueueReach-Sound r
        (queue_create-Sound type start stop incr num_workers lastblocks shep_of h small) in
    let closed : t.iq.stop ≤ t.iq.start =
      subst (PlaceOk t.iq.stop t.iq.start (is_timed t.iq.type)) e (k.places w) in
    let bound = k.bound in
    let m : min t.iq.start stop ≡ stop = omega (arith, closed, bound) in
    QueueReach-Once type start stop incr num_workers lastblocks shep_of t any h small r i
    ∙ ap (λ x. within i (start, x)) m
