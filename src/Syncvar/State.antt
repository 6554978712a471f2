-- ===== src/Syncvar/State.antt =====
-- The state that src/syncvar.c works on: one variable, its entry of the table `syncvars`, and the
-- memory, the threads and the ready queues. A call looks up the entry of its own variable only.
use qthreads.Feb.State.{AddrStat, Qthread, running, feb_blocked, is_nil}
use qthreads.Syncvar.Word.{build}
use qthreads.Prelude.{
  ℕ, ◌+◌, Bool, ◌&&◌, Option, none, some, List, [], ◌∷◌, ◌++◌, ◌==◌, if◌then◌else◌, update,
}

-- `addr` is the address of the variable.
pub record Var : Type 0 where
  pub addr : ℕ
  pub word : ℕ
  pub entry : Option AddrStat
  pub mem : ℕ → ℕ
  pub threads : ℕ → Qthread
  pub ready : List (ℕ × ℕ)

-- `asserted` is an assertion that fails, `blocked` a call that waits.
pub data Outcome : Type 0 where
  success opfail timeout asserted blocked : Outcome
  value : ℕ → Outcome

-- `UNLOCK_THIS_MODIFIED_SYNCVAR`
abbrev pub unlock : ℕ → ℕ → Var → Var
unlock val state v = record v { word = build val state }

-- The lock that `qthread_mwaitc` takes.
abbrev pub hold : Var → Var
hold v = record v { word = v.word + 1 }

-- `if (dest) *dest = val`
abbrev pub store : ℕ → ℕ → Var → Var
store dest val v = record v { mem = if dest == 0 then v.mem else update v.mem dest val }

-- `qthread_syncvar_schedule`
unfoldable pub sync_schedule : ℕ → ℕ → Var → Var
sync_schedule waiter shep v =
    let w = v.threads waiter in
    record v {
      threads = update v.threads waiter (record w { thread_state = running });
      ready = v.ready ++ (if w.unstealable then w.shepherd else shep, waiter) ∷ [];
    }

abbrev pub block : ℕ → Var → Var
block me v = record v {
  threads = update v.threads me (record (v.threads me) { thread_state = feb_blocked });
}

-- All three queues are empty.
abbrev pub is_idle : AddrStat → Bool
is_idle m = is_nil m.efq && (is_nil m.feq && is_nil m.ffq)

-- The entry is written back, and `qthread_syncvar_remove` takes it out when no one waits.
unfoldable pub put_back : AddrStat → Var → Var
put_back m v = record v { entry = if is_idle m then none else some m }
