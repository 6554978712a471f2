-- ===== src/LoopQueue/Swap.antt =====
-- src/qloop.c: the bounds of the ranges that the four ways of taking iterations try to take.
use native.Mathlib.Nat.{div-add-mod'}
use qthreads.LoopQueue.{
  IterationQueue, guided_value, guided_next, factored_value, factored_next, phase_value, new_phase,
  timed_value,
}
use qthreads.Prelude.{
  ℕ, ◌+◌, ◌-◌, ◌*◌, ◌/◌, ◌≤◌, ◌<◌, ◌≡◌, refl, Bool, true, false, some, ◌==◌, arith,
}

-- A new value of `start`: beyond the old one and within the loop, or beyond the loop as the old one.
abbrev pub Swap : ℕ → ℕ → ℕ → Type 0
Swap stop ret next = (ret < stop → (ret < next) × (next ≤ stop)) × (stop ≤ ret → stop ≤ next)

quotient_le : (x s : ℕ) → 1 ≤ s → x / s ≤ x
quotient_le x s h =
    let e = div-add-mod' x s in let c : x / s ≤ x / s * s = grind (arith, h) in omega (arith, e, c)

-- With a shepherd there is no division by zero.
pub guided_next-some :
    (stop sheps ret : ℕ)
    → 1 ≤ sheps
    → guided_next stop sheps ret ≡ some (guided_value stop sheps ret)
unfolding guided_next
guided_next-some stop sheps ret h = let z : (sheps == 0) ≡ false = ground (arith, h) in rw z refl

pub factored_next-some :
    (stop sheps phase ret : ℕ)
    → 1 ≤ sheps
    → factored_next stop sheps phase ret ≡ some (factored_value stop sheps phase ret)
unfolding factored_next
factored_next-some stop sheps phase ret h =
    let z : (sheps == 0) ≡ false = ground (arith, h) in rw z refl

pub new_phase-some :
    (stop sheps phase ret : ℕ)
    → 1 ≤ sheps
    → new_phase stop sheps phase ret ≡ some (phase_value stop sheps phase ret)
unfolding new_phase
new_phase-some stop sheps phase ret h =
    let z : (sheps == 0) ≡ false = ground (arith, h) in rw z refl

pub guided_value-Swap :
    (stop sheps ret : ℕ) → 1 ≤ sheps → Swap stop ret (guided_value stop sheps ret)
unfolding guided_value
guided_value-Swap stop sheps ret h =
    let a = quotient_le (stop - ret) sheps h in
    let c = quotient_le (ret - stop) sheps h in ((λ l. ground arith), (λ l. ground arith))

pub factored_value-Swap :
    (stop sheps phase ret : ℕ)
    → 1 ≤ sheps
    → (ret < stop → ret < phase)
    → Swap stop ret (factored_value stop sheps phase ret)
unfolding factored_value
factored_value-Swap stop sheps phase ret h k =
    let a = quotient_le (stop - phase) sheps h in
    ((λ l. let d = k l in ground (arith, a, d)), (λ l. ground (arith, l)))

pub phase_value_le :
    (stop sheps phase ret : ℕ) → ret < stop → phase_value stop sheps phase ret ≤ stop
unfolding phase_value
phase_value_le stop sheps phase ret h =
    let x : ℕ = stop - (stop + ret) / 2 in
    let e = div-add-mod' x sheps in
    let c : ret + x / sheps * sheps ≤ stop = omega (arith, e, h) in ground (arith, c)

pub timed_value_lem :
    (q : IterationQueue) (sheps : ℕ) (slow : Bool) (localstart block : ℕ)
    → localstart < q.stop
    → 1 ≤ block
    → (1 ≤ timed_value q sheps slow localstart block)
      × (localstart + timed_value q sheps slow localstart block ≤ q.stop)
unfolding timed_value
timed_value_lem q sheps true localstart block h k = ((ground arith), (ground arith))
timed_value_lem q sheps false localstart block h k = ((ground arith), (ground arith))
