-- ===== src/Feb/Ops.antt =====
-- The operations of src/feb.c, called by a qthread. Each is one step: the code holds the lock of
-- the address from the lookup until it returns or blocks. A call that blocks returns
-- `QTHREAD_SUCCESS` when another call has put its thread back on a ready queue.
use qthreads.Feb.State.{
  AddrStat, addrstat_new, Feb, feb_blocked, Status, success, malloc_error, opfail, blocked, align,
  choose_stripe, copy_word, put, set_state,
}
use qthreads.Feb.Lock.{gotlock_fill, gotlock_empty}
use qthreads.Prelude.{ℕ, Bool, false, none, some, ◌∷◌, if◌then◌else◌}

-- What the pools answer: whether a `qthread_addrstat_t` and a `qthread_addrres_t` can be had.
pub record Pools : Type 0 where
  pub addrstat : Bool
  pub addrres : Bool

abbrev set_mem : (ℕ → ℕ) → Feb → Feb
set_mem f s = record s { mem = f }

home : ℕ → Feb → ℕ
home me s = (s.threads me).shepherd

abbrev pub full_to_empty : AddrStat → AddrStat
full_to_empty m = record m { full = false }

unfoldable pub empty : Pools → ℕ → ℕ → Feb → Feb × Status
empty pools shep dest s =
    let a = align dest in
    let bin = choose_stripe a in
    elim (s.table bin a) [
      | none ↦
          if pools.addrstat
          then (put bin a (some (full_to_empty addrstat_new)) s, success)
          else (s, malloc_error)
      | some m ↦ (gotlock_empty bin shep a m s, success)
    ]

unfoldable pub fill : ℕ → ℕ → Feb → Feb × Status
fill shep dest s =
    let a = align dest in
    let bin = choose_stripe dest in
    elim (s.table bin a) [ none ↦ (s, success) | some m ↦ (gotlock_fill bin shep a m s, success) ]

unfoldable pub write_f : ℕ → ℕ → ℕ → Feb → Feb × Status
write_f shep dest src s =
    let a = align dest in
    let bin = choose_stripe dest in
    let s' = set_mem (copy_word dest src s.mem) s in
    elim (s.table bin a) [ none ↦ (s', success) | some m ↦ (gotlock_fill bin shep a m s', success) ]

-- The part of `qthread_writeEF` behind the lookup; `s` holds `m`.
unfoldable pub write_ef_locked : Pools → ℕ → ℕ → ℕ → AddrStat → Feb → Feb × Status
unfolding home
write_ef_locked pools me dest src m s =
    let a = align dest in
    let bin = choose_stripe dest in
    if m.full
    then (if pools.addrres
        then (
          set_state me feb_blocked
              (put bin a (some (record m { efq = record { addr = src; waiter = me } ∷ m.efq })) s),
          blocked,
        )
        else (s, malloc_error))
    else (gotlock_fill bin (home me s) a m (set_mem (copy_word dest src s.mem) s), success)

unfoldable pub write_ef : Pools → ℕ → ℕ → ℕ → Feb → Feb × Status
write_ef pools me dest src s =
    let a = align dest in
    let bin = choose_stripe dest in
    elim (s.table bin a) [
      | none ↦
          if pools.addrstat
          then write_ef_locked pools me dest src addrstat_new (put bin a (some addrstat_new) s)
          else (s, malloc_error)
      | some m ↦ write_ef_locked pools me dest src m s
    ]

unfoldable pub write_ef_nb : ℕ → ℕ → ℕ → Feb → Feb × Status
unfolding home
write_ef_nb me dest src s =
    let a = align dest in
    let bin = choose_stripe dest in
    elim (s.table bin a) [
      | none ↦ (s, opfail)
      | some m ↦
          if m.full
          then (s, opfail)
          else (gotlock_fill bin (home me s) a m (set_mem (copy_word dest src s.mem) s), success)
    ]

unfoldable pub read_ff : Pools → ℕ → ℕ → ℕ → Feb → Feb × Status
read_ff pools me dest src s =
    let a = align src in
    let bin = choose_stripe src in
    let done : Feb × Status = (set_mem (copy_word dest src s.mem) s, success) in
    elim (s.table bin a) [
      | none ↦ done
      | some m ↦
          if m.full
          then done
          else if pools.addrres
          then (
            set_state me feb_blocked (
                put bin a (some (record m { ffq = record { addr = dest; waiter = me } ∷ m.ffq }))
                  s),
            blocked,
          )
          else (s, malloc_error)
    ]

unfoldable pub read_ff_nb : ℕ → ℕ → Feb → Feb × Status
read_ff_nb dest src s =
    let done : Feb × Status = (set_mem (copy_word dest src s.mem) s, success) in
    elim (s.table (choose_stripe src) (align src)) [
      | none ↦ done
      | some m ↦ if m.full then done else (s, opfail)
    ]

unfoldable pub read_fe_locked : Pools → ℕ → ℕ → ℕ → AddrStat → Feb → Feb × Status
unfolding home
read_fe_locked pools me dest src m s =
    let a = align src in
    let bin = choose_stripe src in
    if m.full
    then (gotlock_empty bin (home me s) a m (set_mem (copy_word dest src s.mem) s), success)
    else if pools.addrres
    then (
      set_state me feb_blocked
          (put bin a (some (record m { feq = record { addr = dest; waiter = me } ∷ m.feq })) s),
      blocked,
    )
    else (s, malloc_error)

unfoldable pub read_fe : Pools → ℕ → ℕ → ℕ → Feb → Feb × Status
read_fe pools me dest src s =
    let a = align src in
    let bin = choose_stripe src in
    elim (s.table bin a) [
      | none ↦
          if pools.addrstat
          then read_fe_locked pools me dest src addrstat_new (put bin a (some addrstat_new) s)
          else (s, malloc_error)
      | some m ↦ read_fe_locked pools me dest src m s
    ]

unfoldable pub read_fe_nb_locked : ℕ → ℕ → ℕ → AddrStat → Feb → Feb × Status
unfolding home
read_fe_nb_locked me dest src m s =
    if m.full
    then (
      gotlock_empty (choose_stripe src) (home me s) (align src) m
          (set_mem (copy_word dest src s.mem) s),
      success,
    )
    else (s, opfail)

unfoldable pub read_fe_nb : Pools → ℕ → ℕ → ℕ → Feb → Feb × Status
read_fe_nb pools me dest src s =
    let a = align src in
    let bin = choose_stripe src in
    elim (s.table bin a) [
      | none ↦
          if pools.addrstat
          then read_fe_nb_locked me dest src addrstat_new (put bin a (some addrstat_new) s)
          else (s, malloc_error)
      | some m ↦ read_fe_nb_locked me dest src m s
    ]
