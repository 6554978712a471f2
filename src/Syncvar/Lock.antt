-- ===== src/Syncvar/Lock.antt =====
-- What src/syncvar.c does under the lock of a word: the wake-ups.
use qthreads.Feb.State.{AddrRes, AddrStat, addrstat_new, is_nil}
use qthreads.Syncvar.State.{Var, Outcome, success, asserted, unlock, store, sync_schedule, put_back}
use qthreads.Prelude.{
  ℕ, true, false, ◌&&◌, not, Option, none, some, List, [], ◌∷◌, ◌==◌, if◌then◌else◌,
}

unfoldable pub wake_reader : ℕ → ℕ → AddrRes → Var → Var
wake_reader shep ret x v = sync_schedule x.waiter shep (store x.addr ret v)

-- The loop that empties the FFQ.
unfoldable pub wake_readers : ℕ → ℕ → List AddrRes → Var → Var
wake_readers shep ret [] v = v
wake_readers shep ret (x ∷ q) v = wake_readers shep ret q (wake_reader shep ret x v)

-- `qthread_syncvar_gotlock_fill`
unfoldable pub var_fill : ℕ → AddrStat → ℕ → Var → Var
var_fill shep m ret v =
    let t = wake_readers shep ret m.ffq v in
    elim m.feq [
      | [] ↦ put_back (record m { full = true; ffq = [] }) t
      | x ∷ q ↦ put_back (record m { full = true; ffq = []; feq = q }) (wake_reader shep ret x t)
    ]

-- `qthread_syncvar_gotlock_empty`; a source that is the variable itself leaves the word locked.
unfoldable pub var_empty : ℕ → AddrStat → ℕ → Var → Var
var_empty shep m sf v = elim m.efq [
  | [] ↦ put_back (record m { full = false }) v
  | x ∷ q ↦
      put_back (record m { full = false; efq = q })
        (sync_schedule x.waiter shep (if v.addr == x.addr then v else unlock (v.mem x.addr) sf v))
]

-- The state that a fill leaves: empty if there is a taker, with waiters if there are two.
unfoldable pub filled_state : AddrStat → ℕ
filled_state m = elim m.feq [ [] ↦ 0 | x ∷ q ↦ if is_nil q then 2 else 3 ]

-- The branch of a fill or a write that finds waiters. An assertion wants a reader or a taker and no
-- writer.
unfoldable pub release_waiters : ℕ → ℕ → Var → Var × Outcome
release_waiters shep val v = elim v.entry [
  | none ↦ (v, asserted)
  | some m ↦
      if is_nil m.efq && not (is_nil m.ffq && is_nil m.feq)
      then (var_fill shep m val (unlock val (filled_state m) v), success)
      else (unlock val (filled_state m) v, asserted)
]

-- The branch of an empty or a take that finds waiters.
unfoldable pub release_writer : ℕ → Var → Var × Outcome
release_writer shep v = elim v.entry [
  | none ↦ (v, asserted)
  | some m ↦ elim m.efq [
    | [] ↦ (v, asserted)
    | x ∷ q ↦
        if is_nil m.ffq && is_nil m.feq
        then (var_empty shep m (if is_nil q then 0 else 1) v, success)
        else (v, asserted)
  ]
]

-- The entry that a thread which has to wait finds or makes.
abbrev pub entry_of : Option AddrStat → AddrStat
entry_of none = addrstat_new
entry_of (some m) = m
