-- ===== src/Feb/Cascade/Account.antt =====
-- Accounts of the cascade: the word's state against completed waiters, and the waiters themselves.
use qthreads.Feb.State.{AddrRes, AddrStat, Feb, is_nascent, schedule, copy_word}
use qthreads.Feb.Lock.{
  Locked, wake_ff, drain_ffq, set_full, wake_fe, wake_ef, fill_inner, empty_inner,
}
use qthreads.Feb.Cascade.{
  Filling, Emptying, fill_round, empty_round, fill_spent, empty_spent, filled, filled-m,
}
use qthreads.Prelude.{
  ℕ, zero, suc, ◌+◌, ◌<◌, ◌≡◌, refl, ◌∙◌, ap, Bool, true, false, List, [], ◌∷◌, ◌++◌, length, total,
  total-append, ◌==◌, if◌then◌else◌, inl, inr, Bool-cases, arith,
}

abbrev pub to_nat : Bool → ℕ
to_nat true = 1
to_nat false = 0

mutual
  unfolding wake_fe wake_ef

  pub fill_balance :
      (n shep maddr : ℕ) (l : Locked)
      → length l.m.feq + length l.m.efq < n
      → let m = (fill_inner n shep maddr l).m in
        to_nat m.full + length l.m.feq + length m.efq ≡ 1 + length l.m.efq + length m.feq
  fill_balance zero shep maddr l h = absurd (omega arith)
  fill_balance (suc n) shep maddr l h = elim (fill_round n shep maddr l) [
    | Filling.ends e r ↦ rw (r, filled-m) (omega (arith, ap length e))
    | Filling.wakes x q e r ↦
        let next = wake_fe shep maddr x q (filled shep maddr l) in
        let same : length next.m.efq ≡ length l.m.efq =
          ap (λ k. length (AddrStat.efq k)) (filled-m shep maddr l) in
        rw r (
          omega (
            arith,
            empty_balance n shep maddr next (omega (arith, ap length e)),
            ap length e,
            same,
          ))
  ]

  pub empty_balance :
      (n shep maddr : ℕ) (l : Locked)
      → length l.m.feq + length l.m.efq < n
      → let m = (empty_inner n shep maddr l).m in
        to_nat m.full + length l.m.feq + length m.efq ≡ length l.m.efq + length m.feq
  empty_balance zero shep maddr l h = absurd (omega arith)
  empty_balance (suc n) shep maddr l h = elim (empty_round n shep maddr l) [
    | Emptying.ends e r ↦ rw r (omega arith)
    | Emptying.wakes x q e r ↦
        let next = wake_ef shep maddr x q (set_full false l) in
        rw r
          (omega (arith, fill_balance n shep maddr next (omega (arith, ap length e)), ap length e))
  ]

-- How often a thread stands in a queue of waiters, on the ready queues, and in all of them.
abbrev pub queued : ℕ → List AddrRes → ℕ
queued t = total (λ x. if x.waiter == t then 1 else 0)

abbrev pub listed : ℕ → List (ℕ × ℕ) → ℕ
listed t = total (λ e. if e.1 == t then 1 else 0)

abbrev pub held : ℕ → Locked → ℕ
held t l =
    queued t l.m.efq
    + queued t l.m.feq
    + queued t l.m.ffq
    + queued t l.precond_tasks
    + listed t l.feb.ready

pub queued-append : (t : ℕ) (xs ys : List AddrRes) → queued t (xs ++ ys) ≡ queued t xs + queued t ys
queued-append t = total-append (λ x. if x.waiter == t then 1 else 0)

pub listed-append : (t : ℕ) (xs ys : List (ℕ × ℕ)) → listed t (xs ++ ys) ≡ listed t xs + listed t ys
listed-append t = total-append (λ e. if e.1 == t then 1 else 0)

pub schedule-listed :
    (t w shep : ℕ) (s : Feb)
    → listed t (schedule w shep s).ready ≡ listed t s.ready + (if w == t then 1 else 0)
unfolding schedule
schedule-listed t w shep s = rw (listed-append) (omega arith)

wake_ff-q :
    (shep maddr : ℕ) (x : AddrRes) (q : List AddrRes) (l : Locked)
    → (wake_ff shep maddr x q l).m.ffq ≡ q
unfolding wake_ff
wake_ff-q shep maddr x q l = ground arith

wake_ff-held :
    (t shep maddr : ℕ) (x : AddrRes) (q : List AddrRes) (l : Locked)
    → l.m.ffq ≡ x ∷ q
    → held t (wake_ff shep maddr x q l) ≡ held t l
unfolding wake_ff
wake_ff-held t shep maddr x q l e =
    let e' = ap (queued t) e in
    let s = record (l.feb) { mem = copy_word x.addr maddr l.feb.mem } in
    elim (Bool-cases (is_nascent (l.feb.threads x.waiter).thread_state)) [
      | inl b ↦ rw b (omega (arith, e', queued-append t l.precond_tasks (x ∷ [])))
      | inr b ↦ rw b (omega (arith, e', schedule-listed t x.waiter shep s))
    ]

drain_ffq-held :
    (t shep maddr : ℕ) (q : List AddrRes) (l : Locked)
    → l.m.ffq ≡ q
    → held t (drain_ffq shep maddr q l) ≡ held t l
unfolding drain_ffq
drain_ffq-held t shep maddr [] l e = refl
drain_ffq-held t shep maddr (x ∷ q) l e =
    drain_ffq-held t shep maddr q (wake_ff shep maddr x q l) (wake_ff-q shep maddr x q l)
    ∙ wake_ff-held t shep maddr x q l e

filled-held : (t shep maddr : ℕ) (l : Locked) → held t (filled shep maddr l) ≡ held t l
filled-held t shep maddr l = drain_ffq-held t shep maddr l.m.ffq (set_full true l) refl

wake_fe-held :
    (t shep maddr : ℕ) (x : AddrRes) (q : List AddrRes) (l : Locked)
    → l.m.feq ≡ x ∷ q
    → held t (wake_fe shep maddr x q l) ≡ held t l
unfolding wake_fe
wake_fe-held t shep maddr x q l e = omega (
  arith,
  ap (queued t) e,
  schedule-listed t x.waiter shep (record (l.feb) { mem = copy_word x.addr maddr l.feb.mem }),
)

wake_ef-held :
    (t shep maddr : ℕ) (x : AddrRes) (q : List AddrRes) (l : Locked)
    → l.m.efq ≡ x ∷ q
    → held t (wake_ef shep maddr x q l) ≡ held t l
unfolding wake_ef
wake_ef-held t shep maddr x q l e = omega (
  arith,
  ap (queued t) e,
  schedule-listed t x.waiter shep (record (l.feb) { mem = copy_word maddr x.addr l.feb.mem }),
)

mutual
  -- The cascade moves waiters from the queues of the word to the ready queues or to the chain of
  -- nascent threads: whatever the fuel, none is lost and none stands there twice.
  pub fill_held : (t n shep maddr : ℕ) (l : Locked) → held t (fill_inner n shep maddr l) ≡ held t l
  fill_held t zero shep maddr l = ap (held t) (fill_spent shep maddr l)
  fill_held t (suc n) shep maddr l = elim (fill_round n shep maddr l) [
    | Filling.ends e r ↦ rw r (filled-held t shep maddr l)
    | Filling.wakes x q e r ↦ rw r (
        empty_held t n shep maddr _
        ∙ wake_fe-held t shep maddr x q _ (ap AddrStat.feq (filled-m shep maddr l) ∙ e)
        ∙ filled-held t shep maddr l)
  ]

  pub empty_held :
      (t n shep maddr : ℕ) (l : Locked) → held t (empty_inner n shep maddr l) ≡ held t l
  empty_held t zero shep maddr l = ap (held t) (empty_spent shep maddr l)
  empty_held t (suc n) shep maddr l = elim (empty_round n shep maddr l) [
    | Emptying.ends e r ↦ rw r
    | Emptying.wakes x q e r ↦
        rw r (fill_held t n shep maddr _ ∙ wake_ef-held t shep maddr x q (set_full false l) e)
  ]

-- For every thread, the cascade of `qthread_gotlock_fill` keeps how often it stands in the queues
-- of the word, in the chain of nascent threads and on the ready queues together: no waiter is lost
-- and none is woken twice.
pub fill_inner-held :
    (t n shep maddr : ℕ) (l : Locked) → held t (fill_inner n shep maddr l) ≡ held t l
fill_inner-held = fill_held

-- Where the fuel is above the number of waiting takers and writers, filling accounts for every
-- exchange: the word's final state (1 for full), the takers before and the writers after add up to
-- one, for the fill itself, and the writers before and the takers after.
pub fill_inner-balance :
    (n shep maddr : ℕ) (l : Locked)
    → length l.m.feq + length l.m.efq < n
    → let m = (fill_inner n shep maddr l).m in
      to_nat m.full + length l.m.feq + length m.efq ≡ 1 + length l.m.efq + length m.feq
fill_inner-balance = fill_balance
