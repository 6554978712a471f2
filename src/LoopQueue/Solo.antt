-- ===== src/LoopQueue/Solo.antt =====
-- src/qloop.c: a worker that no other disturbs gets a range, or finds that there is none left.
use qthreads.LoopQueue.{
  QueueType, chunk, guided, factored, timed, IterationQueue, Position, enter, chunk_incr,
  guided_load, guided_swap, factored_enter, factored_load, factored_phase, factored_swap,
  timed_swap, running, finished, disabled, trapped, Event, hand, guided_value, timed_value,
  timed_block, divisor_fits, timed_go, step_enter, enter_alone, enter_chunked, enter_guided,
  enter_factored, enter_timed, step_swap, step_place,
}
use qthreads.LoopQueue.Swap.{guided_next-some}
use qthreads.Prelude.{
  ℕ, zero, suc, ◌*◌, ◌^◌, ◌≤◌, ◌<◌, ◌≡◌, not, ◌||◌, ◌&&◌, arith, refl, Bool, true, false, ◌==◌, ltb,
  if◌then◌else◌, inl, inr, Bool-cases, ==_refl, on_some,
}

-- A call is over, or the worker has stopped.
abbrev pub is_settled : Position → Bool
is_settled (running startat stopat) = true
is_settled finished = true
is_settled disabled = true
is_settled _ = false

-- Up to `n` accesses of one worker, until its call is over.
abbrev pub solo : ℕ → Event → ℕ → ℕ → IterationQueue × Position → IterationQueue × Position
solo zero e shep range_step r = r
solo (suc n) e shep range_step r =
    let rest = solo n e shep range_step (step_place r.0 e shep range_step r.1) in
    if is_settled r.1 then r else rest

-- A place of a loop that is not `factored`.
abbrev pub no_phase : QueueType → Position → Bool
no_phase t enter = elim t [ factored ↦ false | _ ↦ true ]
no_phase t (factored_enter sheps ret) = false
no_phase t (factored_load sheps phase) = false
no_phase t (factored_phase sheps ret phase) = false
no_phase t (factored_swap sheps phase ret next) = false
no_phase t trapped = false
no_phase t _ = true

-- The shepherds that a worker goes by at a place: there is one, and in a TIMED loop of the given step
-- the divisor stays in its word.
abbrev pub Divides : ℕ → Position → Type 0
Divides step (guided_load sheps) = 1 ≤ sheps
Divides step (guided_swap sheps ret next) = 1 ≤ sheps
Divides step (timed_swap sheps slow localstart block) = (1 ≤ sheps) × (sheps * 2 * step < 2 ^ 63)
Divides step _ = Unit {0}

module _ (e : Event) (shep range_step : ℕ) where
  settled_stays :
      (n : ℕ) (r : IterationQueue × Position)
      → is_settled r.1 ≡ true
      → is_settled (solo n e shep range_step r).1 ≡ true
  settled_stays zero r h = h
  settled_stays (suc n) r h = rw h h

  own_swap :
      (q : IterationQueue) (next : ℕ) (again : Position)
      → is_settled (step_swap q q.start next again).1 ≡ true
  unfolding step_swap
  own_swap q next again =
      let same = ==_refl q.start in
      elim (Bool-cases (ltb q.start q.stop)) [
        | inl l ↦ rw (same, l) refl
        | inr l ↦ rw (same, l) refl
      ]

  guided_settles :
      (n sheps : ℕ) (q : IterationQueue)
      → 1 ≤ sheps
      → is_settled (solo (suc (suc n)) e shep range_step (q, guided_load sheps)).1 ≡ true
  unfolding step_place
  guided_settles n sheps q some_shep =
      on_some
        (λ (r : IterationQueue × Position). is_settled (solo (suc n) e shep range_step r).1 ≡ true)
        (q, trapped) (λ next. (q, guided_swap sheps q.start next))
        (guided_next-some q.stop sheps q.start some_shep)
        (settled_stays n
          (step_swap q q.start (guided_value q.stop sheps q.start) (guided_load sheps))
          (own_swap q (guided_value q.stop sheps q.start) (guided_load sheps)))

  -- A swap of the start ends the call, or goes back to `again`.
  swap_outcome :
      (P : IterationQueue × Position → Type 0) (q : IterationQueue) (ret next : ℕ)
      (again : Position)
      → ((r : IterationQueue × Position) → is_settled r.1 ≡ true → P r)
      → P (q, again)
      → P (step_swap q ret next again)
  unfolding step_swap
  swap_outcome P q ret next again over back = elim (Bool-cases (q.start == ret)) [
    | inl c ↦ elim (Bool-cases (ltb ret q.stop)) [
      | inl l ↦ rw (c, l) (over (hand ret next (record q { start = next }), running ret next) refl)
      | inr l ↦ rw (c, l) (over (record q { start = next }, finished) refl)
    ]
    | inr c ↦ elim (Bool-cases (ltb ret q.stop)) [
      | inl l ↦ rw (c, l) back
      | inr l ↦ rw (c, l) (over (q, finished) refl)
    ]
  ]

  swap_settles :
      (n sheps ret next : ℕ) (q : IterationQueue)
      → 1 ≤ sheps
      → is_settled (solo (suc (suc (suc n))) e shep range_step (q, guided_swap sheps ret next)).1
        ≡ true
  unfolding step_place
  swap_settles n sheps ret next q some_shep =
      swap_outcome (λ r. is_settled (solo (suc (suc n)) e shep range_step r).1 ≡ true) q ret next
        (guided_load sheps) (settled_stays (suc (suc n))) (guided_settles n sheps q some_shep)

  chunk_settles :
      (n : ℕ) (q : IterationQueue)
      → is_settled (solo (suc n) e shep range_step (q, chunk_incr)).1 ≡ true
  unfolding step_place
  chunk_settles n q = elim (Bool-cases (ltb q.start q.stop)) [
    | inl l ↦ settled_stays n (step_place q e shep range_step chunk_incr) (rw (step_place, l) refl)
    | inr l ↦ settled_stays n (step_place q e shep range_step chunk_incr) (rw (step_place, l) refl)
  ]

  own_timed :
      (n sheps : ℕ) (slow : Bool) (block : ℕ) (q : IterationQueue)
      → is_settled (solo (suc n) e shep range_step (q, timed_swap sheps slow q.start block)).1
        ≡ true
  unfolding step_place
  own_timed n sheps slow block q =
      let same = ==_refl q.start in
      settled_stays n (step_place q e shep range_step (timed_swap sheps slow q.start block))
        (elim (Bool-cases (ltb 0 block)) [
          | inl l ↦ rw (step_place, same, l) refl
          | inr l ↦ rw (step_place, same, l) refl
        ])

  -- The divisor of a TIMED loop fits.
  go_settles :
      (n sheps : ℕ) (slow : Bool) (block : ℕ) (q : IterationQueue)
      → 1 ≤ sheps
      → 1 ≤ q.step
      → sheps * 2 * q.step < 2 ^ 63
      → is_settled (solo (suc n) e shep range_step (timed_go q sheps slow q.start block)).1 ≡ true
  unfolding timed_block divisor_fits
  go_settles n sheps slow block q some_shep stepped narrow =
      let fits : (ltb 0 (sheps * 2 * q.step) && ltb (sheps * 2 * q.step) (2 ^ 63)) ≡ true =
        let some_product : 0 < sheps * 2 * q.step = grind (arith, some_shep, stepped) in
        ground (arith, some_product, narrow) in
      let yes : (not slow || divisor_fits sheps q.step) ≡ true = ground (arith, fits) in
      rw (timed_go, yes) (own_timed n sheps slow (timed_value q sheps slow q.start block) q)

  timed_settles :
      (n sheps : ℕ) (slow : Bool) (localstart block : ℕ) (q : IterationQueue)
      → 1 ≤ q.step
      → Divides q.step (timed_swap sheps slow localstart block)
      → is_settled
          (solo (suc (suc n)) e shep range_step (q, timed_swap sheps slow localstart block)).1
        ≡ true
  unfolding step_place
  timed_settles n sheps slow localstart block q stepped (some_shep, narrow) =
      elim (Bool-cases (q.start == localstart)) [
        | inl c ↦
            settled_stays (suc n)
              (step_place q e shep range_step (timed_swap sheps slow localstart block))
              (elim (Bool-cases (ltb 0 block)) [
                | inl l ↦ rw (step_place, c, l) refl
                | inr l ↦ rw (step_place, c, l) refl
              ])
        | inr c ↦ elim (Bool-cases (ltb q.start q.stop)) [
          | inl l ↦ rw (c, l) (go_settles n sheps slow block q some_shep stepped narrow)
          | inr l ↦
              settled_stays (suc n)
                (step_place q e shep range_step (timed_swap sheps slow localstart block))
                (rw (step_place, c, l) refl)
        ]
      ]

  alone_settles :
      (n : ℕ) (q : IterationQueue) → is_settled (solo n e shep range_step (enter_alone q)).1 ≡ true
  alone_settles n q = elim (Bool-cases (ltb q.start q.stop)) [
    | inl l ↦ rw l (
        settled_stays n (hand q.start q.stop (record q { start = q.stop }), running q.start q.stop)
          refl)
    | inr l ↦ rw l (settled_stays n (q, finished) refl)
  ]

  enter_settles :
      (t : QueueType) (q : IterationQueue)
      → no_phase t enter ≡ true
      → 1 ≤ e.sheps
      → 1 ≤ q.step
      → e.sheps * 2 * q.step < 2 ^ 63
      → is_settled
          (solo 2 e shep range_step (elim t [
            | chunk ↦ enter_chunked q
            | guided ↦ enter_guided q e
            | factored ↦ enter_factored q e
            | timed ↦ enter_timed q e shep range_step
          ])).1
        ≡ true
  enter_settles chunk q h some_shep stepped narrow = elim (Bool-cases (ltb q.start q.stop)) [
    | inl l ↦ rw l (chunk_settles 1 q)
    | inr l ↦ rw l (settled_stays 2 (q, finished) refl)
  ]
  enter_settles guided q h some_shep stepped narrow = elim (Bool-cases (q.num_workers == 1)) [
    | inl o ↦ rw o (alone_settles 2 q)
    | inr o ↦ elim (Bool-cases (ltb q.start q.stop)) [
      | inl l ↦ rw (o, l) (guided_settles 0 e.sheps q some_shep)
      | inr l ↦ rw (o, l) (settled_stays 2 (q, finished) refl)
    ]
  ]
  enter_settles factored q h some_shep stepped narrow = absurd (let c : false ≡ true = h in cc)
  enter_settles timed q h some_shep stepped narrow = elim (Bool-cases (ltb q.start q.stop)) [
    | inl l ↦
        let slow : Bool = if range_step == 0 then true else e.slow in
        rw l (
          go_settles 1 e.sheps slow (if range_step == 0 then 1 else q.lastblocks shep) q some_shep
            stepped narrow)
    | inr l ↦ rw l (settled_stays 2 (q, finished) refl)
  ]

  -- In a CHUNK, GUIDED or TIMED loop that stops below 2 ^ 62, a worker that makes three accesses while
  -- no other makes one has a range, has finished or was disabled by the end of them: wherever it is,
  -- and whatever the others have done before. The loop has a step of at least 1, and at the worker's
  -- place and at its next call there is an active shepherd, and the divisor of a TIMED loop stays in
  -- its word.
  pub solo-Settles :
      (q : IterationQueue) (p : Position)
      → no_phase q.type p ≡ true
      → q.stop < 2 ^ 62
      → 1 ≤ q.step
      → 1 ≤ e.sheps
      → e.sheps * 2 * q.step < 2 ^ 63
      → Divides q.step p
      → is_settled (solo 3 e shep range_step (q, p)).1 ≡ true
  unfolding step_place step_enter
  solo-Settles q enter h small stepped some_shep narrow d =
      enter_settles q.type q h some_shep stepped narrow
  solo-Settles q chunk_incr h small stepped some_shep narrow d = chunk_settles 2 q
  solo-Settles q (guided_load sheps) h small stepped some_shep narrow d = guided_settles 1 sheps q d
  solo-Settles q (guided_swap sheps ret next) h small stepped some_shep narrow d =
      swap_settles 0 sheps ret next q d
  solo-Settles q (factored_enter sheps ret) h small stepped some_shep narrow d =
      absurd (let c : false ≡ true = h in cc)
  solo-Settles q (factored_load sheps phase) h small stepped some_shep narrow d =
      absurd (let c : false ≡ true = h in cc)
  solo-Settles q (factored_phase sheps ret phase) h small stepped some_shep narrow d =
      absurd (let c : false ≡ true = h in cc)
  solo-Settles q (factored_swap sheps phase ret next) h small stepped some_shep narrow d =
      absurd (let c : false ≡ true = h in cc)
  solo-Settles q (timed_swap sheps slow localstart block) h small stepped some_shep narrow d =
      timed_settles 1 sheps slow localstart block q stepped d
  solo-Settles q (running startat stopat) h small stepped some_shep narrow d = refl
  solo-Settles q finished h small stepped some_shep narrow d = refl
  solo-Settles q disabled h small stepped some_shep narrow d = refl
  solo-Settles q trapped h small stepped some_shep narrow d =
      absurd (let c : false ≡ true = h in cc)
