-- ===== src/Feb/Run.antt =====
-- Sequences of calls of src/feb.c, by any threads in any order, from an empty table.
use qthreads.Feb.State.{Qthread, Feb, Status}
use qthreads.Feb.Ops
use qthreads.Feb.Ops.{Pools}
use qthreads.Feb.Invariant.{IsValid}
use qthreads.Feb.Invariant.Ops.{
  write_ef-IsValid, read_fe-IsValid, read_fe_nb-IsValid, read_ff-IsValid, write_ef_nb-IsValid,
  write_f-IsValid, read_ff_nb-IsValid, fill-IsValid, empty-IsValid,
}
use qthreads.Prelude.{ℕ, none, List, [], ◌∷◌}

pub data Call : Type 0 where
  empty : Pools → ℕ → ℕ → Call
  fill : ℕ → ℕ → Call
  write_f : ℕ → ℕ → ℕ → Call
  write_ef read_ff read_fe read_fe_nb : Pools → ℕ → ℕ → ℕ → Call
  write_ef_nb : ℕ → ℕ → ℕ → Call
  read_ff_nb : ℕ → ℕ → Call

unfoldable pub call : Call → Feb → Feb × Status
call (empty p shep d) s = Ops.empty p shep d s
call (fill shep d) s = Ops.fill shep d s
call (write_f shep d r) s = Ops.write_f shep d r s
call (write_ef p me d r) s = Ops.write_ef p me d r s
call (read_ff p me d r) s = Ops.read_ff p me d r s
call (read_fe p me d r) s = Ops.read_fe p me d r s
call (read_fe_nb p me d r) s = Ops.read_fe_nb p me d r s
call (write_ef_nb me d r) s = Ops.write_ef_nb me d r s
call (read_ff_nb d r) s = Ops.read_ff_nb d r s

unfoldable pub run : List Call → Feb → Feb
run [] s = s
run (c ∷ cs) s = run cs (call c s).0

-- After `qt_feb_subsystem_init`.
abbrev pub start : (ℕ → ℕ) → (ℕ → Qthread) → Feb
start mem threads = record { mem = mem; threads = threads; ready = []; table = λ bin key. none }

call-IsValid : (c : Call) (s : Feb) → IsValid s → IsValid (call c s).0
unfolding call
call-IsValid (empty p shep d) s v = empty-IsValid shep d 0 s v p
call-IsValid (fill shep d) s v = fill-IsValid shep d 0 s v
call-IsValid (write_f shep d r) s v = write_f-IsValid shep d r s v
call-IsValid (write_ef p me d r) s v = write_ef-IsValid p me d r s v
call-IsValid (read_ff p me d r) s v = read_ff-IsValid p me d r s v
call-IsValid (read_fe p me d r) s v = read_fe-IsValid p me d r s v
call-IsValid (read_fe_nb p me d r) s v = read_fe_nb-IsValid p me d r s v
call-IsValid (write_ef_nb me d r) s v = write_ef_nb-IsValid me d r s v
call-IsValid (read_ff_nb d r) s v = read_ff_nb-IsValid 0 d r s v

run_from-IsValid : (cs : List Call) (s : Feb) → IsValid s → IsValid (run cs s)
unfolding run
run_from-IsValid [] s v = v
run_from-IsValid (c ∷ cs) s v = run_from-IsValid cs _ (call-IsValid c s v)

-- After any sequence of calls from an empty table, whatever the pools answer, no word keeps a
-- waiter that its state would let go on: a full word has no waiting reader, and an empty word no
-- waiting writer.
pub run-IsValid :
    (cs : List Call) (mem : ℕ → ℕ) (threads : ℕ → Qthread) → IsValid (run cs (start mem threads))
run-IsValid cs mem threads = run_from-IsValid cs _ (λ bin key m e. cc)
