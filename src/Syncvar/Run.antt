-- ===== src/Syncvar/Run.antt =====
-- Sequences of calls of src/syncvar.c on one variable.
use qthreads.Syncvar.Word.{state_of}
use qthreads.Syncvar.State.{Var, Outcome}
use qthreads.Syncvar.Lock.{entry_of}
use qthreads.Syncvar.Invariant.{IsValid}
use qthreads.Syncvar.Moves.{Kept}
use qthreads.Syncvar.Keeps.{
  set_full-Kept, set_empty-Kept, read_ff-Kept, read_ff_nb-Kept, read_fe-Kept, read_fe_nb-Kept,
  write_f-Kept, write_ef-Kept, write_ef_nb-Kept, incr_f-Kept,
}
use qthreads.Syncvar.Ops.{
  var_read_ff, var_read_ff_nb, var_set_full, var_set_empty, var_read_fe, var_read_fe_nb, too_big,
  var_write_f, var_write_ef, var_write_ef_nb, var_incr_f,
}
use qthreads.Prelude.{ℕ, ◌≡◌, ◌≢◌, false, []}

pub data VarCall : Type 0 where
  fill_call empty_call : ℕ → VarCall
  read_ff_call read_fe_call read_fe_nb_call : ℕ → ℕ → VarCall
  read_ff_nb_call : ℕ → VarCall
  write_f_call write_ef_call write_ef_nb_call incr_call : ℕ → ℕ → VarCall

unfoldable pub var_call : VarCall → Var → Var × Outcome
var_call (fill_call shep) v = var_set_full shep v
var_call (empty_call shep) v = var_set_empty shep v
var_call (read_ff_call me dest) v = var_read_ff me dest v
var_call (read_fe_call me dest) v = var_read_fe me dest v
var_call (read_fe_nb_call me dest) v = var_read_fe_nb me dest v
var_call (read_ff_nb_call dest) v = var_read_ff_nb dest v
var_call (write_f_call shep src) v = var_write_f shep src v
var_call (write_ef_call me src) v = var_write_ef me src v
var_call (write_ef_nb_call me src) v = var_write_ef_nb me src v
var_call (incr_call me inc) v = var_incr_f me inc v

-- The values written have less than 60 bits; `writeF` on no full variable with waiting writers,
-- `writeEF` from no variable to itself, `incrF` on no empty variable with a waiting taker.
abbrev pub Allowed : VarCall → Var → Type 0
Allowed (write_f_call shep src) v = (state_of v.word ≢ 1) × (too_big (v.mem src) ≡ false)
Allowed (write_ef_call me src) v = (v.addr ≢ src) × (too_big (v.mem src) ≡ false)
Allowed (write_ef_nb_call me src) v = too_big (v.mem src) ≡ false
Allowed (incr_call me inc) v = state_of v.word ≡ 3 → (entry_of v.entry).feq ≡ []
Allowed _ v = Unit {0}

-- What can be reached by allowed calls.
pub data VarReach (v : Var) : Var → Type 0 where
  here : VarReach v v
  called : {w : Var} → VarReach v w → (c : VarCall) → Allowed c w → VarReach v (var_call c w).0

pub var_call-Kept : (c : VarCall) (v : Var) → Allowed c v → IsValid v → Kept (var_call c v)
unfolding var_call
var_call-Kept (fill_call shep) v a i = set_full-Kept v i shep
var_call-Kept (empty_call shep) v a i = set_empty-Kept v i shep
var_call-Kept (read_ff_call me dest) v a i = read_ff-Kept v i me dest
var_call-Kept (read_fe_call me dest) v a i = read_fe-Kept v i me dest
var_call-Kept (read_fe_nb_call me dest) v a i = read_fe_nb-Kept v i me dest
var_call-Kept (read_ff_nb_call dest) v a i = read_ff_nb-Kept v i dest
var_call-Kept (write_f_call shep src) v a i = write_f-Kept v i shep src a.0 a.1
var_call-Kept (write_ef_call me src) v a i = write_ef-Kept v i me src a.0 a.1
var_call-Kept (write_ef_nb_call me src) v a i = write_ef_nb-Kept v i me src a
var_call-Kept (incr_call me inc) v a i = incr_f-Kept v i me inc a

VarReach-IsValid : {v w : Var} → IsValid v → VarReach v w → IsValid w
VarReach-IsValid i here = i
VarReach-IsValid i (called {w = w} r c a) = (var_call-Kept c w a (VarReach-IsValid i r)).0

-- From a variable whose state agrees with its queues, by any calls of which none is `writeF` on a
-- full variable with waiting writers, `writeEF` from the variable to itself, `incrF` on an empty
-- variable with a waiting taker, or a write of a value of more than 60 bits: the state agrees with the queues, so that no reader or taker waits
-- for a full variable and no writer for an empty one, and after one more such call it still does,
-- and the call did not end by a failed assertion or a timeout.
pub VarReach-Kept :
    {v w : Var}
    → IsValid v
    → VarReach v w
    → (c : VarCall) → Allowed c w
    → IsValid w × Kept (var_call c w)
VarReach-Kept {w = w} i r c a = let k = VarReach-IsValid i r in (k, var_call-Kept c w a k)
