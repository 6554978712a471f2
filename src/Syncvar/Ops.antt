-- ===== src/Syncvar/Ops.antt =====
-- The calls of src/syncvar.c by a qthread. Each is one step: the code holds the lock of the word
-- from `qthread_mwaitc` on. The pools give the memory that is asked for, as the code asserts. A
-- taker that waits gets the word where it wants it: the code lets it copy a local variable.
use qthreads.Feb.State.{is_nil}
use qthreads.Syncvar.Word.{
  lock_of, state_of, value_of, Held, mwaitc_flags, full_mask, empty_mask, any_mask,
}
use qthreads.Syncvar.State.{
  Var, Outcome, success, opfail, timeout, asserted, blocked, value, unlock, hold, store, block,
}
use qthreads.Syncvar.Lock.{release_waiters, release_writer, entry_of, filled_state, var_fill}
use qthreads.Prelude.{
  ℕ, ◌+◌, ◌-◌, ◌*◌, ◌/◌, ◌%◌, ◌^◌, Bool, ◌&&◌, not, Option, none, some, ◌∷◌, ◌==◌, if◌then◌else◌,
}

abbrev pub int_max : ℕ
int_max = 2 ^ 31 - 1

abbrev pub initial_timeout : ℕ
initial_timeout = 100

abbrev pub flag : Bool → ℕ
flag b = if b then 1 else 0

-- `qthread_syncvar_status`: none is `QTHREAD_TIMEOUT`.
unfoldable pub status : Var → Option Bool
status v =
    let full = not (state_of v.word / 2 % 2 == 1) in
    if lock_of v.word == 0
    then some full
    else elim (mwaitc_flags int_max 0xff v.word) [ none ↦ none | some h ↦ some full ]

-- The unlocked and full word that a read takes without the lock.
unfoldable pub is_plain_full : ℕ → Bool
is_plain_full w = lock_of w == 0 && state_of w / 2 % 2 == 0

abbrev pub shepherd_of : ℕ → Var → ℕ
shepherd_of me v = (v.threads me).shepherd

-- The waiting reader of a word that is held and empty.
abbrev pub join_ffq : ℕ → ℕ → ℕ → Var → Var × Outcome
join_ffq me dest ret v =
    let m = entry_of v.entry in
    (
      block me (record (unlock ret 3 v) {
        entry = some (record m { ffq = record { addr = dest; waiter = me } ∷ m.ffq });
      }),
      blocked,
    )

abbrev pub join_feq : ℕ → ℕ → ℕ → Var → Var × Outcome
join_feq me dest ret v =
    let m = entry_of v.entry in
    (
      block me (record (unlock ret 3 v) {
        entry = some (record m { feq = record { addr = dest; waiter = me } ∷ m.feq });
      }),
      blocked,
    )

abbrev pub join_efq : ℕ → ℕ → ℕ → Var → Var × Outcome
join_efq me src ret v =
    let m = entry_of v.entry in
    (
      block me (record (unlock ret 1 v) {
        entry = some (record m { efq = record { addr = src; waiter = me } ∷ m.efq });
      }),
      blocked,
    )

unfoldable pub var_read_ff : ℕ → ℕ → Var → Var × Outcome
var_read_ff me dest v =
    let w = v.word in
    let got : Held → Var × Outcome =
      λ h. (store dest h.ret (unlock h.ret (flag h.sf) (hold v)), success) in
    if is_plain_full w
    then (store dest (value_of w) v, success)
    else elim (mwaitc_flags initial_timeout full_mask w) [
      | some h ↦ got h
      | none ↦ elim (mwaitc_flags int_max any_mask w) [
        | none ↦ (v, timeout)
        | some h ↦ if h.pf then join_ffq me dest h.ret (hold v) else got h
      ]
    ]

unfoldable pub var_read_ff_nb : ℕ → Var → Var × Outcome
var_read_ff_nb dest v =
    let w = v.word in
    if is_plain_full w
    then (store dest (value_of w) v, success)
    else elim (mwaitc_flags 1 full_mask w) [
      | none ↦ (v, opfail)
      | some h ↦ (store dest h.ret (unlock h.ret (flag h.sf) (hold v)), success)
    ]

unfoldable pub var_set_full : ℕ → Var → Var × Outcome
var_set_full shep v = elim (mwaitc_flags int_max any_mask v.word) [
  | none ↦ (v, timeout)
  | some h ↦
      if h.pf
      then if h.sf then release_waiters shep h.ret (hold v) else (unlock h.ret 0 (hold v), success)
      else (unlock h.ret (flag h.sf) (hold v), success)
]

unfoldable pub var_set_empty : ℕ → Var → Var × Outcome
var_set_empty shep v = elim (mwaitc_flags int_max any_mask v.word) [
  | none ↦ (v, timeout)
  | some h ↦
      if h.pf
      then (unlock h.ret (2 + flag h.sf) (hold v), success)
      else if h.sf
      then release_writer shep (hold v)
      else (unlock h.ret 2 (hold v), success)
]

-- `if (dest) *dest = ret` after a call that succeeded.
abbrev pub then_store : ℕ → ℕ → Var × Outcome → Var × Outcome
then_store dest ret (v, asserted) = (v, asserted)
then_store dest ret (v, o) = (store dest ret v, o)

-- A take of a word that is held and full.
unfoldable pub take_held : ℕ → ℕ → Held → Var → Var × Outcome
take_held shep dest h v =
    then_store dest h.ret (if h.sf then release_writer shep v else (unlock h.ret 2 v, success))

unfoldable pub var_read_fe : ℕ → ℕ → Var → Var × Outcome
var_read_fe me dest v =
    let shep = shepherd_of me v in
    elim (mwaitc_flags initial_timeout full_mask v.word) [
      | some h ↦ take_held shep dest h (hold v)
      | none ↦ elim (mwaitc_flags int_max any_mask v.word) [
        | none ↦ (v, timeout)
        | some h ↦ if h.pf then join_feq me dest h.ret (hold v) else take_held shep dest h (hold v)
      ]
    ]

unfoldable pub var_read_fe_nb : ℕ → ℕ → Var → Var × Outcome
var_read_fe_nb me dest v = elim (mwaitc_flags 1 full_mask v.word) [
  | none ↦ (v, opfail)
  | some h ↦ take_held (shepherd_of me v) dest h (hold v)
]

-- The value does not fit in 60 bits: the assertion of the writes fails.
unfoldable pub too_big : ℕ → Bool
too_big val = not (val / 2 ^ 60 == 0)

unfoldable pub var_write_f : ℕ → ℕ → Var → Var × Outcome
var_write_f shep src v =
    let val = v.mem src in
    if too_big val then (v, asserted) else elim (mwaitc_flags int_max any_mask v.word) [
      | none ↦ (v, timeout)
      | some h ↦
          if h.pf && h.sf
          then release_waiters shep val (hold v)
          else (unlock val 0 (hold v), success)
    ]

-- A write of a word that is held and empty.
unfoldable pub write_held : ℕ → ℕ → Held → Var → Var × Outcome
write_held shep val h v = if h.sf then release_waiters shep val v else (unlock val 0 v, success)

unfoldable pub var_write_ef : ℕ → ℕ → Var → Var × Outcome
var_write_ef me src v =
    let val = v.mem src in
    let shep = shepherd_of me v in
    if too_big val then (v, asserted) else elim (mwaitc_flags initial_timeout empty_mask v.word) [
      | some h ↦ write_held shep val h (hold v)
      | none ↦ elim (mwaitc_flags int_max any_mask v.word) [
        | none ↦ (v, timeout)
        | some h ↦ if h.pf then write_held shep val h (hold v) else join_efq me src h.ret (hold v)
      ]
    ]

unfoldable pub var_write_ef_nb : ℕ → ℕ → Var → Var × Outcome
var_write_ef_nb me src v =
    let val = v.mem src in
    if too_big val then (v, asserted) else elim (mwaitc_flags 1 empty_mask v.word) [
      | none ↦ (v, opfail)
      | some h ↦ write_held (shepherd_of me v) val h (hold v)
    ]

-- The assertions of `qthread_syncvar_incrF`: a reader or a writer waits, and no taker.
unfoldable pub incr_waiters : ℕ → ℕ → Var → Var × Outcome
incr_waiters shep newv v = elim v.entry [
  | none ↦ (v, asserted)
  | some m ↦
      let t = unlock newv (filled_state m) v in
      if not (is_nil m.ffq && is_nil m.efq) && is_nil m.feq
      then (var_fill shep m newv t, value newv)
      else (t, asserted)
]

unfoldable pub var_incr_f : ℕ → ℕ → Var → Var × Outcome
var_incr_f me inc v =
    let newv = (value_of v.word + inc) % 2 ^ 64 in
    elim (mwaitc_flags int_max any_mask v.word) [
      | none ↦ (v, timeout)
      | some h ↦
          if h.pf && h.sf
          then incr_waiters (shepherd_of me v) newv (hold v)
          else (unlock newv (2 * flag h.pf + flag h.sf) (hold v), value newv)
    ]
