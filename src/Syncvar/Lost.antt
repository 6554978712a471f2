-- ===== src/Syncvar/Lost.antt =====
-- What two calls of src/syncvar.c do to waiting threads.
use qthreads.Feb.State.{is_nil}
use qthreads.Syncvar.Word.{held_of, build, state_of, value_of}
use qthreads.Syncvar.State.{Var, Outcome, success, asserted, value, unlock, hold, store}
use qthreads.Syncvar.Lock.{entry_of}
use qthreads.Syncvar.Layout.{IsFree, build-IsFree, state_of-build, mwaitc_flags-held}
use qthreads.Syncvar.Invariant.{Fits, IsValid}
use qthreads.Syncvar.Ops.{
  int_max, initial_timeout, then_store, take_held, var_read_fe, too_big, var_write_f, incr_waiters,
  var_incr_f,
}
use qthreads.Syncvar.Keeps.{all_flags}
use qthreads.Prelude.{
  ℕ, zero, suc, ◌+◌, ◌/◌, ◌%◌, ◌^◌, ◌<◌, ◌≡◌, refl, ◌∙◌, ap, subst, false, not, ◌&&◌, none, some,
  ◌==◌, ltb, if◌then◌else◌, on_true, on_false, on_some, option_both, arith,
}

free_of : {v : Var} → IsValid v → IsFree v.word
free_of i = record { unlocked = i.unlocked; known = i.fits.known }

write_f-state :
    (shep src : ℕ) (v : Var)
    → IsValid v
    → state_of v.word ≡ 1
    → too_big (v.mem src) ≡ false
    → var_write_f shep src v ≡ (unlock (v.mem src) 0 (hold v), success)
unfolding var_write_f
write_f-state shep src v i e fits =
    let Goal : Var × Outcome → Type 0 = λ r. r ≡ (unlock (v.mem src) 0 (hold v), success) in
    on_false Goal (v, asserted) fits
      (on_some Goal _ _ (mwaitc_flags-held int_max v.word (free_of i)).2
        (on_false Goal {b = (held_of v.word).pf && (held_of v.word).sf} _ (rw e refl) refl))

read_fe-state :
    (me dest : ℕ) (v : Var)
    → IsFree v.word
    → state_of v.word ≡ 0
    → var_read_fe me dest v
      ≡ (store dest (value_of v.word) (unlock (value_of v.word) 2 (hold v)), success)
unfolding var_read_fe take_held
read_fe-state me dest v f e =
    let Goal : Var × Outcome → Type 0 =
      λ r. r ≡ (store dest (value_of v.word) (unlock (value_of v.word) 2 (hold v)), success) in
    on_some Goal _ _
      ((mwaitc_flags-held initial_timeout v.word f).0
        ∙ ap (λ k. if ltb k 2 then some (held_of v.word) else none) e)
      (ap (then_store dest (value_of v.word)) (
        on_false (λ (r : Var × Outcome). r ≡ (unlock (value_of v.word) 2 (hold v), success))
          {b = (held_of v.word).sf} _ (rw e refl) refl))

-- A `writeF`, and then a `readFE`.
abbrev pub written_taken : ℕ → ℕ → ℕ → ℕ → Var → Var
written_taken shep src me dest v = (var_read_fe me dest (var_write_f shep src v).0).0

-- `qthread_syncvar_writeF` forgets waiting writers: for a full variable with waiting writers, whose
-- state agrees with its queues, and a value that fits, a write by it and a take by
-- `qthread_syncvar_readFE` leave the variable empty with no waiters flagged, while the entry with
-- the waiting writers is as it was and no thread has been made ready.
pub write_f-forgets :
    (shep src me dest : ℕ) (v : Var)
    → IsValid v
    → state_of v.word ≡ 1
    → too_big (v.mem src) ≡ false
    → (state_of (written_taken shep src me dest v).word ≡ 2)
      × ((written_taken shep src me dest v).entry ≡ v.entry)
      × (is_nil (entry_of v.entry).efq ≡ false)
      × ((written_taken shep src me dest v).ready ≡ v.ready)
write_f-forgets shep src me dest v i e fits =
    let w = unlock (v.mem src) 0 (hold v) in
    let u = store dest (value_of w.word) (unlock (value_of w.word) 2 (hold w)) in
    let taken : written_taken shep src me dest v ≡ u =
      ap (λ r. (var_read_fe me dest r.0).0) (write_f-state shep src v i e fits)
      ∙ ap (λ r. r.0)
          (read_fe-state me dest w (build-IsFree (v.mem src) 0 (omega arith))
            (state_of-build (v.mem src) 0 (omega arith))) in
    let f : Fits v.addr 1 (entry_of v.entry) =
      subst (λ k. Fits v.addr k (entry_of v.entry)) e i.fits in
    let r = f.no_reader (omega arith) in
    let wt = f.waiters in
    (
      ap (λ r. state_of r.word) taken ∙ state_of-build (value_of w.word) 2 (omega arith),
      ap (λ r. r.entry) taken,
      grind (arith, r, wt),
      ap (λ r. r.ready) taken,
    )

-- The assertions of `qthread_syncvar_incrF` are about the wrong queue: for an empty variable, whose
-- state agrees with its queues and for which a taker waits, it ends by a failed assertion.
pub incr_f-asserted :
    (me inc : ℕ) (v : Var)
    → IsValid v
    → state_of v.word ≡ 3
    → is_nil (entry_of v.entry).feq ≡ false
    → (var_incr_f me inc v).1 ≡ asserted
unfolding var_incr_f incr_waiters
incr_f-asserted me inc v i e taker =
    let Goal : Var × Outcome → Type 0 = λ r. r.1 ≡ asserted in
    on_some Goal _ _ (mwaitc_flags-held int_max v.word (free_of i)).2 (
      on_true Goal {b = (held_of v.word).pf && (held_of v.word).sf} _ (rw e refl) (
        option_both Goal v.entry (λ n. refl)
          (λ m n.
            let t = subst (λ o. is_nil (entry_of o).feq ≡ false) n taker in
            on_false Goal {b = not (is_nil m.ffq && is_nil m.efq) && is_nil m.feq} _
              (grind (arith, t)) refl)))

not_both : (s : ℕ) → s < 3 → ((s / 2 % 2 == 1) && (s % 2 == 1)) ≡ false
not_both zero h = refl
not_both (suc zero) h = refl
not_both (suc (suc zero)) h = refl
not_both (suc (suc (suc n))) h = absurd (omega arith)

value_of-build : (val state : ℕ) → state < 3 → value_of (build val state) ≡ val % 2 ^ 60
unfolding value_of build
value_of-build val state h = omega arith

-- Where no taker or reader waits, `qthread_syncvar_incrF` returns the sum of the value and the
-- increment modulo 2 ^ 64, but stores it modulo 2 ^ 60, and leaves the state as it was.
pub incr_f-narrows :
    (me inc : ℕ) (v : Var)
    → IsValid v
    → state_of v.word < 3
    → ((var_incr_f me inc v).1 ≡ value ((value_of v.word + inc) % 2 ^ 64))
      × (value_of (var_incr_f me inc v).0.word ≡ (value_of v.word + inc) % 2 ^ 60)
      × (state_of (var_incr_f me inc v).0.word ≡ state_of v.word)
unfolding var_incr_f
incr_f-narrows me inc v i h =
    let newv = (value_of v.word + inc) % 2 ^ 64 in
    let flags = all_flags (state_of v.word) i.fits.known in
    let Goal : Var × Outcome → Type 0 = λ r.
      (r.1 ≡ value newv)
      × (value_of r.0.word ≡ (value_of v.word + inc) % 2 ^ 60)
      × (state_of r.0.word ≡ state_of v.word) in
    on_some Goal _ _ (mwaitc_flags-held int_max v.word (free_of i)).2 (
      on_false Goal {b = (held_of v.word).pf && (held_of v.word).sf} _
        (not_both (state_of v.word) h)
        (
          refl,
          ap (λ k. value_of (build newv k)) flags
              ∙ value_of-build newv (state_of v.word) h
              ∙ omega arith,
          ap (λ k. state_of (build newv k)) flags
              ∙ state_of-build newv (state_of v.word) i.fits.known,
        ))
