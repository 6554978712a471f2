-- ===== src/Syncvar/Word.antt =====
-- The word of a `syncvar_t` of include/qthread/qthread.h, and `qthread_mwaitc` of src/syncvar.c.
use qthreads.Prelude.{
  ℕ, zero, suc, ◌+◌, ◌*◌, ◌/◌, ◌%◌, ◌^◌, Bool, Option, none, some, ◌==◌, if◌then◌else◌,
}

-- `BUILD_UNLOCKED_SYNCVAR`
unfoldable pub build : ℕ → ℕ → ℕ
build value state = (value * 2 ^ 4 + state * 2) % 2 ^ 64

-- The bit fields, in the order that is not `BITFIELD_ORDER_FORWARD`.
unfoldable pub lock_of : ℕ → ℕ
lock_of w = w % 2

unfoldable pub state_of : ℕ → ℕ
state_of w = w / 2 % 8

unfoldable pub value_of : ℕ → ℕ
value_of w = w / 16

-- The masks `SYNCFEB_FULL`, `SYNCFEB_EMPTY` and `SYNCFEB_ANY`.
abbrev pub full_mask : ℕ
full_mask = 0x3

abbrev pub empty_mask : ℕ
empty_mask = 0xc

abbrev pub any_mask : ℕ
any_mask = 0xf

-- `statemask & (1 << state)`
unfoldable pub of_interest : ℕ → ℕ → Bool
of_interest mask state = mask / 2 ^ state % 2 == 1

-- What `qthread_mwaitc` returns with the lock held: the value, and the flags `pf`, empty, and `sf`,
-- waiters.
pub record Held : Type 0 where
  pub ret : ℕ
  pub pf : Bool
  pub sf : Bool

-- The word with the lock bit set.
unfoldable pub lock_word : ℕ → ℕ
lock_word w = w / 2 * 2 + 1

-- The flags and the value of a word.
abbrev pub held_of : ℕ → Held
held_of w = record { ret = value_of w; pf = state_of w / 2 % 2 == 1; sf = state_of w % 2 == 1 }

-- `UNLOCK_THIS_UNMODIFIED_SYNCVAR` as AMD64 has it: the lock bit is cleared.
unfoldable pub unlock_word : ℕ → ℕ
unlock_word w = w / 2 * 2

-- One turn of the loop, with the word after it: the word is locked, and unlocked again if the state is
-- not one of interest. A word that another one has locked stays as it is.
unfoldable pub attempt : ℕ → ℕ → ℕ × Option Held
attempt mask w =
    let locked = lock_word w in
    if lock_of w == 1
    then (w, none)
    else if of_interest mask (state_of locked)
    then (locked, some (held_of locked))
    else (unlock_word locked, none)

-- The loop on a word that no one else changes meanwhile, with the word after it: none is a timeout, the
-- flag `cf`.
unfoldable pub wait_loop : ℕ → ℕ → ℕ → ℕ × Option Held
wait_loop zero mask w = attempt mask w
wait_loop (suc timeout) mask w =
    let r = attempt mask w in
    let again = wait_loop timeout mask r.0 in elim r.1 [ none ↦ again | some h ↦ (r.0, some h) ]

-- `qthread_mwaitc`: none is the assertion that the timeout is above 0.
unfoldable pub mwaitc : ℕ → ℕ → ℕ → Option (ℕ × Option Held)
mwaitc timeout mask w = if timeout == 0 then none else some (wait_loop timeout mask w)

-- What the callers get, which all give a timeout above 0. The word is locked then, if they get flags.
abbrev pub mwaitc_flags : ℕ → ℕ → ℕ → Option Held
mwaitc_flags timeout mask w = (wait_loop timeout mask w).1
