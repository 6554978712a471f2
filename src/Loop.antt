-- ===== src/Loop.antt =====
-- src/qloop.c: `qt_loop_balance_inner`, which divides an iteration space among the workers, and
-- `qloop_wrapper`, by which the workers spawn one another as a tree. A `size_t` is a number below
-- 2 ^ 64.
pub mod Chunks
pub mod Tree
pub mod Accum
use qthreads.Prelude.{
  ℕ, zero, suc, ◌+◌, ◌-◌, ◌*◌, ◌/◌, ◌%◌, ◌^◌, ◌≡◌, Bool, true, false, Option, none, some, List, [],
  ◌∷◌, ◌++◌, ◌==◌, ltb, leb, if◌then◌else◌,
}

-- `synctype_t`
pub data SyncType : Type 0 where
  aligned : SyncType
  syncvar_t : SyncType
  sinc_t : SyncType
  donecount : SyncType
  no_sync : SyncType

-- What the field `sync` of an argument points to.
pub data SyncTarget : Type 0 where
  to_syncvars : SyncTarget
  to_sinc : SyncTarget
  to_dc : SyncTarget

-- `struct qloop_wrapper_args` less the function, its argument and the flags, which all share.
pub record WrapperArgs : Type 0 where
  pub startat : ℕ
  pub stopat : ℕ
  pub id : ℕ
  pub level : ℕ
  pub spawnthreads : ℕ
  pub sync : SyncTarget

unfoldable pub word : ℕ → ℕ
word n = n % 2 ^ 64

-- The cases of the switch in the loop: the one of `ALIGNED` goes on into the one of `DONECOUNT`.
unfoldable pub sync_target : SyncType → Option SyncTarget
sync_target SyncType.syncvar_t = some SyncTarget.to_syncvars
sync_target SyncType.aligned = some SyncTarget.to_dc
sync_target SyncType.donecount = some SyncTarget.to_dc
sync_target SyncType.sinc_t = some SyncTarget.to_sinc
sync_target SyncType.no_sync = none

-- The loop over `qwa`, from index `i` on; the first number says how many are left.
unfoldable pub fill_args : ℕ → ℕ → ℕ → ℕ → ℕ → ℕ → SyncTarget → List WrapperArgs
fill_args zero i iterend each extra maxworkers target = []
fill_args (suc left) i iterend each extra maxworkers target =
    let stopat = if ltb 0 extra then word (word (iterend + each) + 1) else word (iterend + each) in
    record {
      startat = iterend;
      stopat = stopat;
      id = i;
      level = 0;
      spawnthreads = maxworkers;
      sync = target;
    }
    ∷ fill_args left (i + 1) stopat each (extra - 1) maxworkers target

-- `stop - start`
unfoldable pub span : ℕ → ℕ → ℕ
span start stop = word (stop + (2 ^ 64 - start))

-- The type of `maxworkers` is 16 bits wide. `workers` is what `qthread_num_workers` returns.
unfoldable pub max_workers : ℕ → ℕ → ℕ → ℕ
max_workers workers start stop =
    (if ltb workers (span start stop) then workers else span start stop) % 2 ^ 16

-- The arguments for the workers: none where the code divides by zero or aborts.
unfoldable pub balance : ℕ → ℕ → ℕ → SyncType → Option (List WrapperArgs)
balance workers start stop sync_type =
    let maxworkers = max_workers workers start stop in
    let each = span start stop / maxworkers in
    let extra = span start stop - each * maxworkers in
    if maxworkers == 0 then none else elim (sync_target sync_type) [
      | none ↦ none
      | some target ↦ some (fill_args maxworkers 0 start each extra maxworkers target)
    ]

-- `qloop_wrapper` of the worker `my_id` from a pass of its loop on, `level` being the one of the
-- pass: the ids of the workers that call the function, itself last, when each one that it spawns
-- runs at once. The first number is fuel.
unfoldable pub wrapper : ℕ → ℕ → ℕ → ℕ → List ℕ
wrapper zero spawnthreads my_id level = []
wrapper (suc fuel) spawnthreads my_id level =
    let new_id = my_id + 2 ^ level in
    let spawned = wrapper fuel spawnthreads new_id (level + 1) in
    let rest = wrapper fuel spawnthreads my_id (level + 1) in
    if leb new_id (spawnthreads - 1) then spawned ++ rest else my_id ∷ []

-- The switch in the loop of `qt_loopaccum_balance_inner`.
unfoldable pub accum_target : SyncType → Option SyncTarget
accum_target SyncType.syncvar_t = some SyncTarget.to_syncvars
accum_target SyncType.sinc_t = some SyncTarget.to_sinc
accum_target SyncType.donecount = some SyncTarget.to_dc
accum_target SyncType.aligned = none
accum_target SyncType.no_sync = none

-- The arguments for its workers, whose number is that of `qthread_num_workers`, 16 bits wide. Their
-- ranges are made as those of `qt_loop_balance_inner`; none where the code divides by zero or aborts.
unfoldable pub accum_args : ℕ → ℕ → ℕ → SyncType → Option (List WrapperArgs)
accum_args workers start stop sync_type =
    let each = span start stop / workers in
    let extra = span start stop - each * workers in
    if workers == 0 then none else elim (accum_target sync_type) [
      | none ↦ none
      | some target ↦ some (fill_args workers 0 start each extra workers target)
    ]

-- The loop that waits for the workers 1 and up, and adds what each has returned to `out`.
unfoldable pub accum_rest {ℓ} : {A : Type ℓ} → (A → A → A) → (ℕ → ℕ → A) → A → List WrapperArgs → A
accum_rest acc func out [] = out
accum_rest acc func out (a ∷ rest) = accum_rest acc func (acc out (func a.startat a.stopat)) rest

-- What `out` holds in the end, for workers that wait in the way `sync_type`: `func` gives what the
-- function stores for a range, and worker 0 stores it in `out` itself. None for `DONECOUNT`, which
-- frees the number of workers as an address, where the code aborts, and for `SINC_T`, whose sum is
-- that of the sinc.
unfoldable pub accum_result {ℓ} :
    {A : Type ℓ} → (A → A → A) → (ℕ → ℕ → A) → SyncType → List WrapperArgs → Option A
accum_result acc func SyncType.syncvar_t (a ∷ rest) =
    some (accum_rest acc func (func a.startat a.stopat) rest)
accum_result acc func _ _ = none
