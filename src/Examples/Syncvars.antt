-- ===== src/Examples/Syncvars.antt =====
-- src/syncvar.c on one variable: with a waiting writer, and with a waiting reader and two takers.
use qthreads.Feb.State.{AddrStat, Qthread, running}
use qthreads.Syncvar.Word.{
  build, lock_of, state_of, value_of, of_interest, attempt, wait_loop, lock_word, held_of, mwaitc,
  full_mask, empty_mask, any_mask,
}
use qthreads.Syncvar.State.{Var, put_back, sync_schedule}
use qthreads.Syncvar.Lock.{release_waiters, filled_state, var_fill, wake_reader, wake_readers}
use qthreads.Syncvar.Layout.{build_fields, mwaitc-held}
use qthreads.Syncvar.Invariant.{IsValid}
use qthreads.Syncvar.Moves.{Kept}
use qthreads.Syncvar.Run.{VarCall, VarReach, var_call, VarReach-Kept}
use qthreads.Syncvar.Release.{Released, write_ef-Released}
use qthreads.Syncvar.Ops.{too_big, var_write_ef, write_held}
use qthreads.Prelude.{
  ℕ, ◌≡◌, refl, true, false, Option, none, some, [], ◌∷◌, ltb, leb, ◌≤◌, if◌then◌else◌, arith,
}

abbrev idle : Qthread
idle = record {
  thread_state = running;
  unstealable = false;
  shepherd = 0;
  target_shepherd = none;
  preconds = [];
}

abbrev var : ℕ → Option AddrStat → Var
var word entry = record {
  addr = 64;
  word = word;
  entry = entry;
  mem = λ a. a;
  threads = λ t. idle;
  ready = [];
}

abbrev one_writer : AddrStat
one_writer = record { full = true; efq = record { addr = 8; waiter = 1 } ∷ []; feq = []; ffq = [] }

abbrev takers : AddrStat
takers = record {
  full = true;
  efq = [];
  feq = record { addr = 8; waiter = 2 } ∷ record { addr = 16; waiter = 3 } ∷ [];
  ffq = record { addr = 24; waiter = 4 } ∷ [];
}

one_writer-IsValid : IsValid (var 82 (some one_writer))
unfolding lock_of state_of
one_writer-IsValid = record {
  unlocked = refl;
  fits = record {
    known = ground arith;
    no_reader = λ h. (refl, refl);
    no_writer = λ h. absurd (omega arith);
    waiters = refl;
    apart = ((λ e. omega arith), tt);
  };
}

takers-IsValid : IsValid (var 86 (some takers))
unfolding lock_of state_of
takers-IsValid = record {
  unlocked = refl;
  fits = record {
    known = ground arith;
    no_reader = λ h. absurd (omega arith);
    no_writer = λ h. refl;
    waiters = refl;
    apart = tt;
  };
}

state-82 : state_of 82 ≡ 1
unfolding state_of
state-82 = refl

small : too_big 7 ≡ false
unfolding too_big
small = refl

above-86 : 2 ≤ state_of 86
unfolding state_of
above-86 = ground arith

-- The first taker gets the word, and the second one still waits.
write_ef-takers : (var_write_ef 5 7 (var 86 (some takers))).0.ready ≡ (0, 4) ∷ (0, 2) ∷ []
unfolding var_write_ef too_big wait_loop lock_word attempt of_interest lock_of state_of value_of
    write_held release_waiters filled_state var_fill wake_reader wake_readers sync_schedule put_back
write_ef-takers = refl

build_fields_example :
    (value_of (build 5 3) ≡ 5)
    × (state_of (build 5 3) ≡ 3)
    × (lock_of (build 5 3) ≡ 0)
    × (build (value_of 86) (state_of 86) ≡ 86)
build_fields_example =
    build_fields 5 3 86 (ground arith) (ground arith) (ground arith) (takers-IsValid.unlocked)

mwaitc-held_example :
    (mwaitc 100 full_mask 86
      ≡ some (if ltb (state_of 86) 2 then (87, some (held_of 86)) else (86, none)))
    × (mwaitc 100 empty_mask 86
        ≡ some (if leb 2 (state_of 86) then (87, some (held_of 86)) else (86, none)))
    × (mwaitc 100 any_mask 86 ≡ some (87, some (held_of 86)))
mwaitc-held_example =
    mwaitc-held 100 86
      (record { unlocked = takers-IsValid.unlocked; known = takers-IsValid.fits.known })
      (omega arith)

VarReach-Kept_example :
    IsValid (var_call (VarCall.write_ef_nb_call 6 7) (var 86 (some takers))).0
    × Kept (
        var_call
          (VarCall.read_fe_call 5 8)
          (var_call (VarCall.write_ef_nb_call 6 7) (var 86 (some takers))).0)
VarReach-Kept_example =
    VarReach-Kept takers-IsValid
      (VarReach.called VarReach.here (VarCall.write_ef_nb_call 6 7) small)
      (VarCall.read_fe_call 5 8) tt

write_ef-Released_example :
    Released 7 (var 86 (some takers)) (var_write_ef 5 7 (var 86 (some takers)))
write_ef-Released_example =
    write_ef-Released 5 7 (var 86 (some takers)) takers-IsValid (ground arith) above-86
