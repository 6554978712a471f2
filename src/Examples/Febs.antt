-- ===== src/Examples/Febs.antt =====
-- src/feb.c on one word at address 8: a waiting writer, a waiting reader and a waiting taker.
use qthreads.Feb.State.{
  AddrStat, Qthread, running, Feb, align, choose_stripe, put, copy_word, schedule, wake_shepherd,
}
use qthreads.Feb.Lock.{
  Locked, fill_inner, empty_inner, gotlock_fill, drain_ffq, wake_ff, wake_fe, release,
  precond_launch, feb_remove, check_preconds,
}
use qthreads.Feb.Ops.{Pools, write_ef, write_ef_locked, read_fe}
use qthreads.Feb.Cascade.{IsSettled, inner-IsSettled}
use qthreads.Feb.Cascade.Account.{held, fill_inner-held, fill_inner-balance, to_nat}
use qthreads.Feb.Run.{Call, start, run, run-IsValid}
use qthreads.Feb.Invariant.{IsValid}
use qthreads.Feb.Delivery.Calls.{IsEmptyAt, Delivered, put_same, write_ef-Delivered}
use qthreads.Feb.Taking.{Taken, read_fe-Taken}
use qthreads.Feb.Preconds.{Ends, pending, check_preconds-Ends}
use qthreads.Hash.{qt_hash64}
use qthreads.Prelude.{◌+◌, ◌*◌, ◌≡◌, ◌≢◌, refl, true, false, none, some, [], ◌∷◌, length, arith}

abbrev roomy : Pools
roomy = record { addrstat = true; addrres = true }

abbrev idle_thread : Qthread
idle_thread = record {
  thread_state = running;
  unstealable = false;
  shepherd = 0;
  target_shepherd = none;
  preconds = [];
}

-- The word at address a holds 10 * a.
abbrev fresh : Feb
fresh = start (λ a. 10 * a) (λ t. idle_thread)

abbrev wanting : AddrStat
wanting = record {
  full = false;
  efq = [];
  feq = record { addr = 16; waiter = 1 } ∷ record { addr = 24; waiter = 2 } ∷ [];
  ffq = record { addr = 32; waiter = 3 } ∷ [];
}

abbrev offering : AddrStat
offering = record { full = true; efq = record { addr = 40; waiter = 4 } ∷ []; feq = []; ffq = [] }

abbrev holding : AddrStat → Feb
holding m = put (choose_stripe 8) 8 (some m) fresh

aligned_8 : align 8 ≡ 8
unfolding align
aligned_8 = refl

wanting-IsEmptyAt : IsEmptyAt 8 wanting (holding wanting)
wanting-IsEmptyAt = record {
  aligned = aligned_8;
  entry = put_same (choose_stripe 8) 8 (some wanting) fresh;
  is_empty = refl;
  no_writers = refl;
}

entry_8 : (m : AddrStat) → (holding m).table (choose_stripe 8) (align 8) ≡ some m
unfolding align
entry_8 m = put_same (choose_stripe 8) 8 (some m) fresh

run-IsValid_example :
    IsValid (run (Call.write_ef roomy 1 8 16 ∷ Call.read_fe roomy 2 24 8 ∷ []) fresh)
run-IsValid_example =
    run-IsValid (Call.write_ef roomy 1 8 16 ∷ Call.read_fe roomy 2 24 8 ∷ []) (λ a. 10 * a)
      (λ t. idle_thread)

abbrev locked : Locked
locked = record { feb = fresh; m = wanting; precond_tasks = [] }

inner-IsSettled_example :
    IsSettled (fill_inner 3 0 8 locked).m × IsSettled (empty_inner 3 0 8 locked).m
inner-IsSettled_example = inner-IsSettled 3 0 8 locked (omega arith)

fill_inner-held_example : held 3 (fill_inner 3 0 8 locked) ≡ held 3 locked
fill_inner-held_example = fill_inner-held 3 3 0 8 locked

fill_inner-balance_example :
    let m = (fill_inner 3 0 8 locked).m in to_nat m.full + 2 + length m.efq ≡ 1 + 0 + length m.feq
fill_inner-balance_example = fill_inner-balance 3 0 8 locked (omega arith)

write_ef-Delivered_example : Delivered 8 160 wanting (write_ef roomy 5 8 16 (holding wanting))
write_ef-Delivered_example =
    write_ef-Delivered 5 8 16 wanting (holding wanting) wanting-IsEmptyAt (omega arith) roomy

read_fe-Taken_example :
    Taken 16 8 (holding offering) offering.efq (read_fe roomy 5 16 8 (holding offering))
read_fe-Taken_example =
    read_fe-Taken 16 8 (holding offering) (omega arith) (omega arith) aligned_8 roomy 5 offering
      (put_same (choose_stripe 8) 8 (some offering) fresh)
      (record { is_full = refl; no_takers = refl; no_readers = refl })

check_preconds-Ends_example :
    Ends 5
      (pending (16 ∷ 8 ∷ []) (holding wanting))
      (holding wanting)
      (check_preconds 5 (16 ∷ 8 ∷ []) (holding wanting))
check_preconds-Ends_example = check_preconds-Ends 5 (16 ∷ 8 ∷ []) (holding wanting)

stripes_of_1 : choose_stripe 1 ≢ choose_stripe (align 1)
unfolding choose_stripe align qt_hash64
stripes_of_1 = omega arith

-- A run: the writer fills the word, the first taker empties it again, the reader has a copy.
handed_over :
    let r = (write_ef roomy 5 8 16 (holding wanting)).0 in
    (r.mem 8 ≡ 160)
    × (r.mem 16 ≡ 160)
    × (r.mem 32 ≡ 160)
    × (r.mem 24 ≡ 240)
    × (r.ready ≡ (0, 3) ∷ (0, 1) ∷ [])
unfolding write_ef write_ef_locked gotlock_fill fill_inner drain_ffq wake_ff wake_fe release
    precond_launch feb_remove copy_word schedule wake_shepherd align choose_stripe qt_hash64
handed_over = (refl, refl, refl, refl, refl)
