-- ===== src/LoopQueue.antt =====
-- src/qloop.c: the loops whose workers take their iterations from a shared queue, in the four ways of
-- `qt_loop_queue_create`. A step is one access of a worker to `start`, `phase` or `lastblocks`, so
-- that the workers interleave at these. The program is stopped by a division by zero. The numbers are
-- signed words; they are natural numbers here, for loops that start at 0 or later and stop below
-- 2 ^ 62, and a step that moves `start` out of its word has no result.
pub mod Swap
pub mod Taken
pub mod Access
pub mod Run
pub mod Solo
use qthreads.Loop.{span, word}
use qthreads.Prelude.{
  ℕ, zero, suc, ◌+◌, ◌-◌, ◌*◌, ◌/◌, ◌^◌, Bool, true, false, not, ◌&&◌, ◌||◌, Option, none, some,
  List, [], ◌∷◌, ◌++◌, ◌==◌, ltb, leb, if◌then◌else◌, update,
}

-- `qt_loop_queue_type`
pub data QueueType : Type 0 where
  chunk guided factored timed : QueueType

-- `qqloop_iteration_queue_t` with the chunk size of `struct qqloop_static_args`, the number of workers
-- and, in `handed`, the ranges that were handed out.
pub record IterationQueue : Type 0 where
  pub type : QueueType
  pub start : ℕ
  pub stop : ℕ
  pub step : ℕ
  pub phase : ℕ
  pub lastblocks : ℕ → ℕ
  pub chunksize : ℕ
  pub num_workers : ℕ
  pub handed : List (ℕ × ℕ)

-- Where a worker is, with its local variables. It is trapped after a division by zero, or a product
-- that leaves its word.
pub data Position : Type 0 where
  enter : Position
  chunk_incr : Position
  guided_load : ℕ → Position
  guided_swap : ℕ → ℕ → ℕ → Position
  factored_enter : ℕ → ℕ → Position
  factored_load : ℕ → ℕ → Position
  factored_phase : ℕ → ℕ → ℕ → Position
  factored_swap : ℕ → ℕ → ℕ → ℕ → Position
  timed_swap : ℕ → Bool → ℕ → ℕ → Position
  running : ℕ → ℕ → Position
  finished : Position
  disabled : Position
  trapped : Position

-- The step of its range is that of the call before: 0 at first.
pub record Worker : Type 0 where
  pub place : Position
  pub range_step : ℕ

pub record LoopSystem : Type 0 where
  pub iq : IterationQueue
  pub workers : ℕ → Worker

-- What a step depends on besides: the worker, the number of active shepherds, whether its last range
-- took 7.5e-7 seconds or more, and whether its shepherd is still enabled.
pub record Event : Type 0 where
  pub who : ℕ
  pub sheps : ℕ
  pub slow : Bool
  pub ok : Bool

-- The value of `start` that qqloop_get_iterations_guided tries to set. Beyond `stop` the difference is
-- negative, and its quotient is rounded towards 0.
unfoldable pub guided_value : ℕ → ℕ → ℕ → ℕ
guided_value stop sheps ret =
    if ltb ret stop
    then (if (stop - ret) / sheps == 0 then ret + 1 else ret + (stop - ret) / sheps)
    else if (ret - stop) / sheps == 0
    then ret + 1
    else ret - (ret - stop) / sheps

-- None where the code divides by zero.
unfoldable pub guided_next : ℕ → ℕ → ℕ → Option ℕ
guided_next stop sheps ret = if sheps == 0 then none else some (guided_value stop sheps ret)

-- The same in qqloop_get_iterations_factored, where `phase` is at most `stop`.
unfoldable pub factored_value : ℕ → ℕ → ℕ → ℕ → ℕ
factored_value stop sheps phase ret =
    if (stop - phase) / sheps == 0 then ret + 1 else ret + (stop - phase) / sheps

unfoldable pub factored_next : ℕ → ℕ → ℕ → ℕ → Option ℕ
factored_next stop sheps phase ret =
    if sheps == 0 then none else some (factored_value stop sheps phase ret)

-- The value of `phase` that it tries to set.
unfoldable pub phase_value : ℕ → ℕ → ℕ → ℕ → ℕ
phase_value stop sheps phase ret =
    let newphase = ret + (stop - (stop + ret) / 2) / sheps * sheps in
    if newphase == phase then stop else newphase

unfoldable pub new_phase : ℕ → ℕ → ℕ → ℕ → Option ℕ
new_phase stop sheps phase ret =
    if sheps == 0 then none else some (phase_value stop sheps phase ret)

-- The block of qqloop_get_iterations_timed from `localstart` on.
unfoldable pub timed_value : IterationQueue → ℕ → Bool → ℕ → ℕ → ℕ
timed_value q sheps slow localstart block =
    let dynamic = if slow then (q.stop - localstart) / (sheps * 2 * q.step) + 1 else block in
    if ltb q.stop (localstart + dynamic) then q.stop - localstart else dynamic

-- Whether the divisor of qqloop_get_iterations_timed is a number above 0 in its signed word.
unfoldable pub divisor_fits : ℕ → ℕ → Bool
divisor_fits sheps step = ltb 0 (sheps * 2 * step) && ltb (sheps * 2 * step) (2 ^ 63)

-- None where the code divides by zero or the divisor leaves its word.
unfoldable pub timed_block : IterationQueue → ℕ → Bool → ℕ → ℕ → Option ℕ
timed_block q sheps slow localstart block =
    if not slow || divisor_fits sheps q.step
    then some (timed_value q sheps slow localstart block)
    else none

-- A range is handed out.
abbrev pub hand : ℕ → ℕ → IterationQueue → IterationQueue
hand startat stopat q = record q { handed = q.handed ++ ((startat, stopat) ∷ []) }

-- Where the loop of `factored` goes when it has a phase.
unfoldable pub factored_go : ℕ → ℕ → ℕ → ℕ → Position
factored_go stop sheps phase ret =
    if leb phase ret && ltb ret stop
    then factored_phase sheps ret phase
    else elim (factored_next stop sheps phase ret) [
      | none ↦ trapped
      | some next ↦ factored_swap sheps phase ret next
    ]

-- The first access of a call, in each way of taking iterations: `start` is read. A worker that is
-- alone takes all the rest.
abbrev pub enter_alone : IterationQueue → IterationQueue × Position
enter_alone q =
    let ret = q.start in
    if ltb ret q.stop
    then (hand ret q.stop (record q { start = q.stop }), running ret q.stop)
    else (q, finished)

abbrev pub enter_chunked : IterationQueue → IterationQueue × Position
enter_chunked q = if ltb q.start q.stop then (q, chunk_incr) else (q, finished)

abbrev pub enter_guided : IterationQueue → Event → IterationQueue × Position
enter_guided q e =
    if q.num_workers == 1
    then enter_alone q
    else if ltb q.start q.stop
    then (q, guided_load e.sheps)
    else (q, finished)

abbrev pub enter_factored : IterationQueue → Event → IterationQueue × Position
enter_factored q e =
    if q.num_workers == 1 then enter_alone q else (q, factored_enter e.sheps q.start)

-- The block is computed for a swap of the start.
abbrev pub timed_go : IterationQueue → ℕ → Bool → ℕ → ℕ → IterationQueue × Position
timed_go q sheps slow localstart block = elim (timed_block q sheps slow localstart block) [
  | none ↦ (q, trapped)
  | some dynamic ↦ (q, timed_swap sheps slow localstart dynamic)
]

abbrev pub enter_timed : IterationQueue → Event → ℕ → ℕ → IterationQueue × Position
enter_timed q e shep range_step =
    let ret = q.start in
    let slow = if range_step == 0 then true else e.slow in
    let block = if range_step == 0 then 1 else q.lastblocks shep in
    if ltb ret q.stop then timed_go q e.sheps slow ret block else (q, finished)

-- The function that `qt_loop_queue_create` stores in `get`.
unfoldable pub step_enter : IterationQueue → Event → ℕ → ℕ → IterationQueue × Position
step_enter q e shep range_step = elim q.type [
  | chunk ↦ enter_chunked q
  | guided ↦ enter_guided q e
  | factored ↦ enter_factored q e
  | timed ↦ enter_timed q e shep range_step
]

-- `qthread_cas` on `start`, and what follows in `guided` and in `factored`: the range if it has set
-- `start` before `stop`, or another round.
unfoldable pub step_swap : IterationQueue → ℕ → ℕ → Position → IterationQueue × Position
step_swap q ret next again =
    if q.start == ret
    then (if ltb ret q.stop
        then (hand ret next (record q { start = next }), running ret next)
        else (record q { start = next }, finished))
    else if ltb ret q.stop
    then (q, again)
    else (q, finished)

-- `qthread_incr` in `chunked`.
abbrev pub step_chunked : IterationQueue → IterationQueue × Position
step_chunked q =
    let ret = q.start in
    let moved = record q { start = ret + q.chunksize } in
    let stopat = if ltb q.stop (ret + q.chunksize) then q.stop else ret + q.chunksize in
    if ltb ret q.stop then (hand ret stopat moved, running ret stopat) else (moved, finished)

-- `qthread_cas` on the phase in `factored`.
abbrev pub step_phase : IterationQueue → ℕ → ℕ → ℕ → IterationQueue × Position
step_phase q sheps ret phase = elim (new_phase q.stop sheps phase ret) [
  | none ↦ (q, trapped)
  | some next ↦ (
    if q.phase == phase then record q { phase = next } else q,
    factored_go q.stop sheps q.phase ret,
  )
]

-- `qthread_cas` in `timed`.
abbrev pub step_timed : IterationQueue → ℕ → ℕ → Bool → ℕ → ℕ → IterationQueue × Position
step_timed q shep sheps slow localstart block =
    let set = record q {
      start = localstart + block;
      lastblocks = update q.lastblocks shep block;
    } in
    if q.start == localstart
    then (if ltb 0 block
        then (hand localstart (localstart + block) set, running localstart (localstart + block))
        else (set, finished))
    else if ltb q.start q.stop
    then timed_go q sheps slow q.start block
    else (q, finished)

-- `qqloop_wrapper`: one access of a worker on the shepherd `shep`.
unfoldable pub step_place : IterationQueue → Event → ℕ → ℕ → Position → IterationQueue × Position
step_place q e shep range_step enter = step_enter q e shep range_step
step_place q e shep range_step chunk_incr = step_chunked q
step_place q e shep range_step (guided_load sheps) = elim (guided_next q.stop sheps q.start) [
  | none ↦ (q, trapped)
  | some next ↦ (q, guided_swap sheps q.start next)
]
step_place q e shep range_step (guided_swap sheps ret next) =
    step_swap q ret next (guided_load sheps)
step_place q e shep range_step (factored_enter sheps ret) =
    if ltb ret q.stop then (q, factored_load sheps q.phase) else (q, finished)
step_place q e shep range_step (factored_load sheps phase) =
    (q, factored_go q.stop sheps phase q.start)
step_place q e shep range_step (factored_phase sheps ret phase) = step_phase q sheps ret phase
step_place q e shep range_step (factored_swap sheps phase ret next) =
    step_swap q ret next (factored_load sheps phase)
step_place q e shep range_step (timed_swap sheps slow localstart block) =
    step_timed q shep sheps slow localstart block
step_place q e shep range_step (running startat stopat) = (q, if e.ok then enter else disabled)
step_place q e shep range_step finished = (q, finished)
step_place q e shep range_step disabled = (q, disabled)
step_place q e shep range_step trapped = (q, trapped)

-- The step of the range after a step: `factored` does not set it.
unfoldable pub step_range : IterationQueue → Position → ℕ → ℕ
step_range q (running startat stopat) range_step = elim q.type [
  | factored ↦ if q.num_workers == 1 then q.step else range_step
  | _ ↦ q.step
]
step_range q place range_step = range_step

-- The system after a step.
unfoldable pub queue_moved : (ℕ → ℕ) → Event → LoopSystem → LoopSystem
queue_moved shep_of e s =
    let w = s.workers e.who in
    let r = step_place s.iq e (shep_of e.who) w.range_step w.place in
    record {
      iq = r.0;
      workers =
          update s.workers e.who
            (record { place = r.1; range_step = step_range s.iq r.1 w.range_step });
    }

abbrev pub is_trapped : Position → Bool
is_trapped trapped = true
is_trapped _ = false

-- One access of a worker: none where the program is stopped by it, or where `start` leaves its signed
-- word.
unfoldable pub queue_step : (ℕ → ℕ) → Event → LoopSystem → Option LoopSystem
queue_step shep_of e s =
    let t = queue_moved shep_of e s in
    if is_trapped (t.workers e.who).place
    then none
    else if ltb t.iq.start (2 ^ 63)
    then some t
    else none

-- `qqloop_create_iq`, `qt_loop_queue_create` and the start of `qt_loop_queue_run`, with at least one
-- worker.
unfoldable pub queue_create : QueueType → ℕ → ℕ → ℕ → ℕ → (ℕ → ℕ) → LoopSystem
queue_create type start stop incr num_workers lastblocks =
    let size = span start stop / num_workers / 10 in
    record {
      iq = record {
        type = type;
        start = start;
        stop = stop;
        step = incr;
        phase = word (start + stop) / 2;
        lastblocks = lastblocks;
        chunksize = if size == 0 then 1 else size;
        num_workers = num_workers;
        handed = [];
      };
      workers = λ i. record { place = enter; range_step = 0 };
    }
