-- ===== src/Feb/State.antt =====
-- The state of src/feb.c: `qthread_addrres_t` and `qthread_addrstat_t` of
-- include/qt_blocking_structs.h, the threads' fields that the file reads, the striped table `FEBs`,
-- the user's memory, and the ready queues as the log of what was enqueued on which shepherd.
use qthreads.Hash.{qt_hash64}
use qthreads.Prelude.{
  ℕ, ◌-◌, ◌%◌, Bool, true, false, ◌&&◌, ◌||◌, not, Option, none, some, List, [], ◌∷◌, ◌++◌, ◌==◌,
  if◌then◌else◌, update,
}

-- `threadstate_t` of include/qt_threadstate.h.
pub data ThreadState : Type 0 where
  nascent new running yielded yielded_near queue feb_blocked : ThreadState
  parent_yield parent_blocked parent_unblocked assassinated terminated : ThreadState
  migrating syscall illegal term_shep : ThreadState

abbrev pub is_nascent : ThreadState → Bool
is_nascent nascent = true
is_nascent _ = false

-- The remaining preconditions stand in the order in which they are checked, which is from the
-- last array element down to the first.
pub record Qthread : Type 0 where
  pub thread_state : ThreadState
  pub unstealable : Bool
  pub shepherd : ℕ
  pub target_shepherd : Option ℕ
  pub preconds : List ℕ

-- `addr` is the memory that is not blocked on; 0 is the null pointer.
pub record AddrRes : Type 0 where
  pub addr : ℕ
  pub waiter : ℕ

pub record AddrStat : Type 0 where
  pub full : Bool
  pub efq : List AddrRes
  pub feq : List AddrRes
  pub ffq : List AddrRes

abbrev pub addrstat_new : AddrStat
addrstat_new = record { full = true; efq = []; feq = []; ffq = [] }

pub record Feb : Type 0 where
  pub mem : ℕ → ℕ
  pub threads : ℕ → Qthread
  pub ready : List (ℕ × ℕ)  -- shepherd and thread
  pub table : ℕ → ℕ → Option AddrStat  -- stripe and aligned address

pub data Status : Type 0 where
  success malloc_error opfail blocked : Status

-- `QALIGN` for an `aligned_t` of 8 bytes.
unfoldable pub align : ℕ → ℕ
align d = d - d % 8

-- `QTHREAD_CHOOSE_STRIPE2`, with 128 stripes.
unfoldable pub choose_stripe : ℕ → ℕ
choose_stripe addr = qt_hash64 addr % 128

abbrev pub is_nil {ℓ} : {A : Type ℓ} → List A → Bool
is_nil [] = true
is_nil (_ ∷ _) = false

abbrev pub put : ℕ → ℕ → Option AddrStat → Feb → Feb
put bin key e s = record s { table = λ b k. if b == bin && k == key then e else s.table b k }

-- `if (dest && dest != src) *dest = *src`
unfoldable pub copy_word : ℕ → ℕ → (ℕ → ℕ) → ℕ → ℕ
copy_word dest src mem = if dest == 0 || dest == src then mem else update mem dest (mem src)

abbrev pub set_state : ℕ → ThreadState → Feb → Feb
set_state t st s = record s {
  threads = update s.threads t (record (s.threads t) { thread_state = st });
}

abbrev pub enqueue : ℕ → ℕ → Feb → Feb
enqueue shep t s = record s { ready = s.ready ++ (shep, t) ∷ [] }

-- The shepherd on whose ready queue a woken thread is put.
unfoldable pub wake_shepherd : Qthread → ℕ → ℕ
wake_shepherd w shep = if w.unstealable && not (w.shepherd == shep) then w.shepherd else shep

-- `qt_feb_schedule`
unfoldable pub schedule : ℕ → ℕ → Feb → Feb
schedule t shep s = enqueue (wake_shepherd (s.threads t) shep) t (set_state t running s)

-- `qthread_feb_status`
unfoldable pub feb_status : ℕ → Feb → Bool
feb_status addr s = elim (s.table (choose_stripe addr) (align addr)) [
  | none ↦ true
  | some m ↦ m.full
]
