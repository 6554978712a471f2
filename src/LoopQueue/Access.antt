-- ===== src/LoopQueue/Access.antt =====
-- src/qloop.c: every access of a worker keeps the account, in all four ways of taking iterations.
use qthreads.LoopQueue.Swap.{
  guided_value-Swap, guided_next-some, new_phase-some, phase_value_le, timed_value_lem,
}
use qthreads.LoopQueue.Taken.{
  Account, PlaceOk, Moved, is_timed, stays, handed-Moved, beyond-Moved, step_swap-Moved,
  factored_go-Moved, Once, Once-snoc,
}
use qthreads.LoopQueue.{
  QueueType, chunk, guided, factored, timed, IterationQueue, Position, enter, chunk_incr,
  guided_load, guided_swap, factored_enter, factored_load, factored_phase, factored_swap,
  timed_swap, running, finished, disabled, trapped, Event, guided_value, step_phase, timed_value,
  timed_block, divisor_fits, timed_go, step_enter, enter_alone, enter_chunked, enter_guided,
  enter_factored, enter_timed, step_place,
}
use qthreads.Prelude.{
  ℕ, ◌+◌, ◌≤◌, ◌<◌, ◌≡◌, ◌≢◌, refl, ap, subst, Bool, true, false, not, ◌||◌, [], ◌∷◌, ◌++◌, ◌==◌,
  ltb, if◌then◌else◌, arith, inl, inr, Bool-cases, min, eq_or_ne,
}

module _ {first : ℕ} {q : IterationQueue} (a : Account first q) (e : Event) (shep range_step : ℕ)
    (some_shep : 1 ≤ e.sheps)
    (kept : is_timed q.type ≡ true → range_step ≢ 0 → 1 ≤ q.lastblocks shep) where
  -- A worker that is alone takes all the rest.
  alone-Moved : is_timed q.type ≡ false → Moved first shep q (enter_alone q)
  alone-Moved plain = elim (Bool-cases (ltb q.start q.stop)) [
    | inl l ↦
        let few : q.start < q.stop = ground (arith, l) in
        rw l (
          handed-Moved a q.stop q.stop few (omega (arith, few)) (omega arith) (omega (arith, few))
            plain)
    | inr l ↦ rw l (stays finished a (ground (arith, l)) refl)
  ]

  timed_go-Moved :
      (sheps : ℕ) (slow : Bool) (block : ℕ)
      → q.start < q.stop
      → 1 ≤ block
      → Moved first shep q (timed_go q sheps slow q.start block)
  unfolding timed_block
  timed_go-Moved sheps slow block few some_block =
      let w = timed_value_lem q sheps slow q.start block few some_block in
      elim (Bool-cases (not slow || divisor_fits sheps q.step)) [
        | inl y ↦
            rw (timed_go, y)
              (stays (timed_swap sheps slow q.start (timed_value q sheps slow q.start block)) a
                (few, w.0, w.1) refl)
        | inr y ↦ rw (timed_go, y) (stays trapped a tt refl)
      ]

  enter_timed-Moved : is_timed q.type ≡ true → Moved first shep q (enter_timed q e shep range_step)
  enter_timed-Moved on = elim (Bool-cases (ltb q.start q.stop)) [
    | inr l ↦ rw l (stays finished a (ground (arith, l)) refl)
    | inl l ↦
        let few : q.start < q.stop = ground (arith, l) in
        let slow : Bool = if range_step == 0 then true else e.slow in
        let block : ℕ = if range_step == 0 then 1 else q.lastblocks shep in
        let some_block : 1 ≤ block = elim (Bool-cases (range_step == 0)) [
          | inl z ↦ rw z (omega arith)
          | inr z ↦ rw z (kept on (λ c. ground (arith, c, z)))
        ] in
        rw l (timed_go-Moved e.sheps slow block few some_block)
  ]

  -- The first access, for each way of taking iterations.
  enter-Moved :
      (t : QueueType)
      → q.type ≡ t
      → Moved first shep q (elim t [
        | chunk ↦ enter_chunked q
        | guided ↦ enter_guided q e
        | factored ↦ enter_factored q e
        | timed ↦ enter_timed q e shep range_step
      ])
  enter-Moved chunk t = elim (Bool-cases (ltb q.start q.stop)) [
    | inl l ↦ rw l (stays chunk_incr a (ap is_timed t) refl)
    | inr l ↦ rw l (stays finished a (ground (arith, l)) refl)
  ]
  enter-Moved guided t = elim (Bool-cases (q.num_workers == 1)) [
    | inl o ↦ rw o (alone-Moved (ap is_timed t))
    | inr o ↦ elim (Bool-cases (ltb q.start q.stop)) [
      | inl l ↦ rw (o, l) (stays (guided_load e.sheps) a (ap is_timed t, some_shep) refl)
      | inr l ↦ rw (o, l) (stays finished a (ground (arith, l)) refl)
    ]
  ]
  enter-Moved factored t = elim (Bool-cases (q.num_workers == 1)) [
    | inl o ↦ rw o (alone-Moved (ap is_timed t))
    | inr o ↦
        rw o (stays (factored_enter e.sheps q.start) a (ap is_timed t, some_shep, (λ h. h)) refl)
  ]
  enter-Moved timed t = enter_timed-Moved (ap is_timed t)

  step_enter-Moved : Moved first shep q (step_enter q e shep range_step)
  unfolding step_enter
  step_enter-Moved = enter-Moved q.type refl

  chunk_incr-Moved :
      is_timed q.type ≡ false → Moved first shep q (step_place q e shep range_step chunk_incr)
  unfolding step_place
  chunk_incr-Moved plain =
      let size = a.chunked in
      elim (Bool-cases (ltb q.start q.stop)) [
        | inr l ↦
            let far : q.stop ≤ q.start = ground (arith, l) in
            rw l (beyond-Moved a (q.start + q.chunksize) far (omega (arith, far)))
        | inl l ↦
            let few : q.start < q.stop = ground (arith, l) in
            elim (Bool-cases (ltb q.stop (q.start + q.chunksize))) [
              | inl c ↦
                  let over : q.stop < q.start + q.chunksize = ground (arith, c) in
                  rw (l, c)
                    (handed-Moved a q.stop (q.start + q.chunksize) few (omega (arith, few))
                      (omega (arith, over)) (omega arith) plain)
              | inr c ↦
                  let fits : q.start + q.chunksize ≤ q.stop = ground (arith, c) in
                  rw (l, c)
                    (handed-Moved a (q.start + q.chunksize) (q.start + q.chunksize) few
                      (omega arith) (omega (arith, fits)) (omega arith) plain)
            ]
      ]

  timed_swap-Moved :
      (sheps : ℕ) (slow : Bool) (localstart block : ℕ)
      → localstart < q.stop
      → 1 ≤ block
      → localstart + block ≤ q.stop
      → Moved first shep q (step_place q e shep range_step (timed_swap sheps slow localstart block))
  unfolding step_place
  timed_swap-Moved sheps slow localstart block few some_block fits =
      elim (Bool-cases (q.start == localstart)) [
        | inl c ↦
            let same : q.start ≡ localstart = ground (arith, c) in
            let some_one : ltb 0 block ≡ true = ground (arith, some_block) in
            rw (c, some_one)
              (record {
                account = record {
                  once =
                      let o : Once first localstart q.handed =
                        subst (λ x. Once first x q.handed)
                          (let m : min q.start q.stop ≡ localstart = omega (arith, same, few) in m)
                          a.once in
                      let b = a.begun in
                      let m : localstart + block ≡ min (localstart + block) q.stop =
                        omega (arith, fits) in
                      subst
                        (λ x. Once first x (q.handed ++ ((localstart, localstart + block) ∷ []))) m
                        (Once-snoc first localstart (localstart + block) q.handed
                          (omega (arith, b, same)) (omega arith) o);
                  begun = let b = a.begun in omega (arith, b, same);
                  ordered = a.ordered;
                  phased = a.phased;
                  chunked = a.chunked;
                };
                same_stop = refl;
                same_type = refl;
                later = λ h. omega (arith, h, same, few);
                blocks = λ x h. elim (eq_or_ne shep x) [
                  | inl z ↦ ground (arith, z, some_block)
                  | inr z ↦ ground (arith, z, h)
                ];
                ok = tt;
                has_block = λ t r. ground (arith, some_block);
              })
        | inr c ↦ elim (Bool-cases (ltb q.start q.stop)) [
          | inl l ↦
              let small : q.start < q.stop = ground (arith, l) in
              rw (c, l) (timed_go-Moved sheps slow block small some_block)
          | inr l ↦ rw (c, l) (stays finished a (ground (arith, l)) refl)
        ]
      ]

  -- The loop of `factored` on the phase.
  factored_phase-Moved :
      (sheps ret phase : ℕ)
      → is_timed q.type ≡ false
      → 1 ≤ sheps
      → ret < q.stop
      → Moved first shep q (step_place q e shep range_step (factored_phase sheps ret phase))
  unfolding step_place
  factored_phase-Moved sheps ret phase plain shep_there few = elim (Bool-cases (q.phase == phase)) [
    | inr c ↦
        rw (step_place, step_phase, new_phase-some q.stop sheps phase ret shep_there, c)
          (factored_go-Moved sheps q.phase ret a plain shep_there a.phased
            (λ h. absurd (omega (arith, h, few))))
    | inl c ↦
        let low = phase_value_le q.stop sheps phase ret few in
        let m =
          factored_go-Moved {shep = shep} sheps q.phase ret a plain shep_there a.phased
            (λ h. absurd (omega (arith, h, few))) in
        rw (step_place, step_phase, new_phase-some q.stop sheps phase ret shep_there, c)
          (record {
            account = record {
              once = a.once;
              begun = a.begun;
              ordered = a.ordered;
              phased = low;
              chunked = a.chunked;
            };
            same_stop = refl;
            same_type = refl;
            later = λ h. h;
            blocks = λ x h. h;
            ok = m.ok;
            has_block = m.has_block;
          })
  ]

  pub step_place-Moved :
      (p : Position)
      → PlaceOk q.stop q.start (is_timed q.type) p
      → Moved first shep q (step_place q e shep range_step p)
  unfolding step_place
  step_place-Moved enter k = step_enter-Moved
  step_place-Moved chunk_incr k = chunk_incr-Moved k
  step_place-Moved (guided_load sheps) (plain, s) =
      rw (step_place, guided_next-some q.stop sheps q.start s)
        (stays (guided_swap sheps q.start (guided_value q.stop sheps q.start)) a
          (plain, s, guided_value-Swap q.stop sheps q.start s, (λ h. h)) refl)
  step_place-Moved (guided_swap sheps ret next) (plain, s, w, seen) =
      step_swap-Moved ret next (guided_load sheps) a plain w seen (plain, s) refl
  step_place-Moved (factored_enter sheps ret) (plain, s, seen) =
      elim (Bool-cases (ltb ret q.stop)) [
        | inl l ↦ rw l (stays (factored_load sheps q.phase) a (plain, s, a.phased) refl)
        | inr l ↦
            let far : q.stop ≤ ret = ground (arith, l) in rw l (stays finished a (seen far) refl)
      ]
  step_place-Moved (factored_load sheps phase) (plain, s, low) =
      factored_go-Moved sheps phase q.start a plain s low (λ h. h)
  step_place-Moved (factored_phase sheps ret phase) (plain, s, low, few) =
      factored_phase-Moved sheps ret phase plain s few
  step_place-Moved (factored_swap sheps phase ret next) (plain, s, low, w, seen) =
      step_swap-Moved ret next (factored_load sheps phase) a plain w seen (plain, s, low) refl
  step_place-Moved (timed_swap sheps slow localstart block) (few, some_block, fits) =
      timed_swap-Moved sheps slow localstart block few some_block fits
  step_place-Moved (running startat stopat) k = elim (Bool-cases e.ok) [
    | inl o ↦ rw o (stays enter a tt refl)
    | inr o ↦ rw o (stays disabled a tt refl)
  ]
  step_place-Moved finished k = stays finished a k refl
  step_place-Moved disabled k = stays disabled a tt refl
  step_place-Moved trapped k = stays trapped a tt refl
