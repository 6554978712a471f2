-- ===== src/Examples/LoopQueues.antt =====
-- src/qloop.c on a loop of one iteration with two workers, and on one of ten.
use qthreads.Loop.{span, word}
use qthreads.LoopQueue.Run.{QueueReach, begun, next, QueueReach-Once, QueueReach-Finished}
use qthreads.LoopQueue.Solo.{is_settled, solo, no_phase, solo-Settles}
use qthreads.LoopQueue.Taken.{times, within}
use qthreads.LoopQueue.{
  chunk, guided, guided_swap, finished, Event, LoopSystem, queue_create, queue_step, step_place,
  step_enter, step_swap, step_range, guided_value, guided_next, queue_moved,
}
use qthreads.Prelude.{
  ℕ, ◌*◌, ◌^◌, ◌≤◌, ◌<◌, ◌≡◌, refl, subst, Option, none, some, some_inj, true, false, List, [], ◌∷◌,
  arith, min,
}

abbrev access : ℕ → Event
access w = record { who = w; sheps = 2; slow = false; ok = true }

-- The accesses of a list of workers, the last one first.
abbrev accesses : LoopSystem → List ℕ → Option LoopSystem
accesses s [] = some s
accesses s (w ∷ l) = elim (accesses s l) [ none ↦ none | some t ↦ queue_step (λ i. 0) (access w) t ]

accesses-Reach : (s t : LoopSystem) (l : List ℕ) → accesses s l ≡ some t → QueueReach (λ i. 0) s t
accesses-Reach s t [] h = subst (QueueReach (λ i. 0) s) (some_inj h) begun
accesses-Reach s t (w ∷ l) h = from_before (accesses s l) (λ u e. accesses-Reach s u l e) h
  where
    from_before :
        (o : Option LoopSystem)
        → ((u : LoopSystem) → o ≡ some u → QueueReach (λ i. 0) s u)
        → elim o [ none ↦ none | some u ↦ queue_step (λ i. 0) (access w) u ] ≡ some t
        → QueueReach (λ i. 0) s t
    from_before none e k = absurd (let c : none ≡ some t = k in cc)
    from_before (some u) e k = next (access w) (e u refl) (omega arith) k

-- The system after accesses that do not stop the program.
abbrev after : LoopSystem → List ℕ → LoopSystem
after s l = elim (accesses s l) [ none ↦ s | some t ↦ t ]

abbrev ten : LoopSystem
ten = queue_create guided 0 10 1 2 (λ i. 0)

-- Worker 0 loses its first swap of the start to worker 1.
abbrev turns : List ℕ
turns = 0 ∷ 0 ∷ 0 ∷ 1 ∷ 1 ∷ 0 ∷ 1 ∷ 0 ∷ []

ten_after : accesses ten turns ≡ some (after ten turns)
unfolding queue_create queue_step queue_moved step_place step_enter step_swap step_range guided_next
    guided_value span word
ten_after = refl

QueueReach-Once_example :
    times 7 (after ten turns).iq.handed ≡ within 7 (0, min (after ten turns).iq.start 10)
QueueReach-Once_example =
    QueueReach-Once guided 0 10 1 2 (λ i. 0) (λ i. 0) (after ten turns) (omega arith) (omega arith)
      (omega arith) (accesses-Reach ten (after ten turns) turns ten_after) 7

ten_handed : (after ten turns).iq.handed ≡ (0, 5) ∷ (5, 7) ∷ []
unfolding queue_create queue_step queue_moved step_place step_enter step_swap step_range guided_next
    guided_value span word
ten_handed = refl

abbrev one : LoopSystem
one = queue_create chunk 0 1 1 2 (λ i. 0)

-- Both workers see the iteration; worker 0 takes it, and worker 1 finishes.
abbrev both_see : List ℕ
both_see = 1 ∷ 0 ∷ 1 ∷ 0 ∷ []

one_after : accesses one both_see ≡ some (after one both_see)
unfolding queue_create queue_step queue_moved step_place step_enter step_swap step_range span word
one_after = refl

one_finished : ((after one both_see).workers 1).place ≡ finished
unfolding queue_create queue_step queue_moved step_place step_enter step_swap step_range span word
one_finished = refl

QueueReach-Finished_example : times 0 (after one both_see).iq.handed ≡ within 0 (0, 1)
QueueReach-Finished_example =
    QueueReach-Finished chunk 0 1 1 2 (λ i. 0) (λ i. 0) (after one both_see) (omega arith)
      (omega arith) (omega arith) (accesses-Reach one (after one both_see) both_see one_after) 1
      one_finished 0

ten-step : (1 ≤ ten.iq.step) × (ten.iq.stop < 2 ^ 62) × (2 * 2 * ten.iq.step < 2 ^ 63)
unfolding queue_create
ten-step = (omega arith, omega arith, omega arith)

ten-no_phase : no_phase ten.iq.type (guided_swap 2 3 5) ≡ true
unfolding queue_create
ten-no_phase = refl

solo-Settles_example : is_settled (solo 3 (access 0) 0 1 (ten.iq, guided_swap 2 3 5)).1 ≡ true
solo-Settles_example =
    solo-Settles (access 0) 0 1 ten.iq (guided_swap 2 3 5) ten-no_phase ten-step.1 ten-step.0
      (omega arith) ten-step.2 (omega arith)
