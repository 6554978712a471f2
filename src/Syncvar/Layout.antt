-- ===== src/Syncvar/Layout.antt =====
-- The fields of the word of src/syncvar.c, and `qthread_mwaitc` on a word that is not locked.
use qthreads.Syncvar.Word.{
  build, lock_of, state_of, value_of, full_mask, empty_mask, any_mask, of_interest, Held, lock_word,
  unlock_word, held_of, attempt, wait_loop, mwaitc, mwaitc_flags,
}
use qthreads.Prelude.{
  ℕ, zero, suc, ◌/◌, ◌%◌, ◌^◌, ◌<◌, ◌≡◌, refl, sym, subst, ◌∙◌, ap, Bool, true, Option, none, some,
  ◌==◌, ltb, leb, if◌then◌else◌, arith, ap₂, false, inl, inr, Bool-cases, ◌+◌,
}

-- A value of less than 60 bits and a state of less than 3 bits are read back from the word that is
-- built of them, which is not locked; and a word of 64 bits that is not locked is built of its value
-- and its state.
pub build_fields :
    (value state w : ℕ)
    → value < 2 ^ 60
    → state < 8
    → w < 2 ^ 64
    → lock_of w ≡ 0
    → (value_of (build value state) ≡ value)
      × (state_of (build value state) ≡ state)
      × (lock_of (build value state) ≡ 0)
      × (build (value_of w) (state_of w) ≡ w)
unfolding build lock_of state_of value_of
build_fields value state w hv hs hw free = (omega arith, omega arith, omega arith, omega arith)

-- A word that is not locked and has one of the four states.
pub record IsFree (w : ℕ) : Type 0 where
  pub unlocked : lock_of w ≡ 0
  pub known : state_of w < 4

pub build-IsFree : (value state : ℕ) → state < 4 → IsFree (build value state)
unfolding build lock_of state_of
build-IsFree value state h = record { unlocked = omega arith; known = omega arith }

pub state_of-build : (value state : ℕ) → state < 4 → state_of (build value state) ≡ state
unfolding build state_of
state_of-build value state h = omega arith

wait_loop-none :
    (timeout mask w : ℕ) → attempt mask w ≡ (w, none) → wait_loop timeout mask w ≡ (w, none)
unfolding wait_loop
wait_loop-none zero mask w e = e
wait_loop-none (suc timeout) mask w e =
    subst
      (λ (r : ℕ × Option Held).
        elim r.1 [ none ↦ wait_loop timeout mask r.0 | some h ↦ (r.0, some h) ] ≡ (w, none))
      (sym e) (wait_loop-none timeout mask w e)

wait_loop-some :
    (timeout mask w x : ℕ) (h : Held)
    → attempt mask w ≡ (x, some h)
    → wait_loop timeout mask w ≡ (x, some h)
unfolding wait_loop
wait_loop-some zero mask w x h e = e
wait_loop-some (suc timeout) mask w x h e =
    subst
      (λ (r : ℕ × Option Held).
        elim r.1 [ none ↦ wait_loop timeout mask r.0 | some h ↦ (r.0, some h) ] ≡ (x, some h))
      (sym e) refl

of_interest_full : (state : ℕ) → state < 4 → of_interest full_mask state ≡ ltb state 2
unfolding of_interest
of_interest_full zero h = refl
of_interest_full (suc zero) h = refl
of_interest_full (suc (suc zero)) h = refl
of_interest_full (suc (suc (suc zero))) h = refl
of_interest_full (suc (suc (suc (suc n)))) h = absurd (omega arith)

of_interest_empty : (state : ℕ) → state < 4 → of_interest empty_mask state ≡ leb 2 state
unfolding of_interest
of_interest_empty zero h = refl
of_interest_empty (suc zero) h = refl
of_interest_empty (suc (suc zero)) h = refl
of_interest_empty (suc (suc (suc zero))) h = refl
of_interest_empty (suc (suc (suc (suc n)))) h = absurd (omega arith)

of_interest_any : (state : ℕ) → state < 4 → of_interest any_mask state ≡ true
unfolding of_interest
of_interest_any zero h = refl
of_interest_any (suc zero) h = refl
of_interest_any (suc (suc zero)) h = refl
of_interest_any (suc (suc (suc zero))) h = refl
of_interest_any (suc (suc (suc (suc n)))) h = absurd (omega arith)

-- A word that is not locked has the same fields once it is, the lock adds one to it, and the unlock
-- takes that back.
lock_word-eq :
    (w : ℕ)
    → lock_of w ≡ 0
    → (lock_word w ≡ w + 1)
      × (state_of (lock_word w) ≡ state_of w)
      × (value_of (lock_word w) ≡ value_of w)
      × (unlock_word (lock_word w) ≡ w)
unfolding lock_word unlock_word lock_of state_of value_of
lock_word-eq w h = (omega (arith, h), omega (arith, h), omega (arith, h), omega (arith, h))

module _ (timeout w : ℕ) (free : IsFree w) where
  held-lock : held_of (lock_word w) ≡ held_of w
  held-lock =
      let e = lock_word-eq w free.unlocked in
      let built : ℕ → ℕ → Held = λ v s. record { ret = v; pf = s / 2 % 2 == 1; sf = s % 2 == 1 } in
      ap₂ built e.2 e.1

  waited :
      (mask : ℕ) (b : Bool)
      → of_interest mask (state_of w) ≡ b
      → wait_loop timeout mask w ≡ (if b then (w + 1, some (held_of w)) else (w, none))
  unfolding attempt
  waited mask b e =
      let unlocked : (lock_of w == 1) ≡ false = ground (arith, free.unlocked) in
      let eq = lock_word-eq w free.unlocked in
      let same : of_interest mask (state_of (lock_word w)) ≡ b = ap (of_interest mask) eq.1 ∙ e in
      elim (Bool-cases b) [
        | inl t ↦ rw t (
            wait_loop-some timeout mask w (w + 1) (held_of w)
              (rw (attempt, unlocked, same, t) (ap₂ (λ x h. (x, some h)) eq.0 held-lock)))
        | inr f ↦ rw f (
            wait_loop-none timeout mask w
              (rw (attempt, unlocked, same, f) (ap (λ x. (x, none)) eq.3)))
      ]

  waits_full :
      wait_loop timeout full_mask w
      ≡ (if ltb (state_of w) 2 then (w + 1, some (held_of w)) else (w, none))
  waits_full = waited full_mask (ltb (state_of w) 2) (of_interest_full (state_of w) free.known)

  waits_empty :
      wait_loop timeout empty_mask w
      ≡ (if leb 2 (state_of w) then (w + 1, some (held_of w)) else (w, none))
  waits_empty = waited empty_mask (leb 2 (state_of w)) (of_interest_empty (state_of w) free.known)

  waits_any : wait_loop timeout any_mask w ≡ (w + 1, some (held_of w))
  waits_any = waited any_mask true (of_interest_any (state_of w) free.known)

  flags_if :
      (b : Bool) (r : ℕ × Option Held)
      → r ≡ (if b then (w + 1, some (held_of w)) else (w, none))
      → r.1 ≡ (if b then some (held_of w) else none)
  flags_if true r e = ap (λ x. x.1) e
  flags_if false r e = ap (λ x. x.1) e

  -- The flags that the callers get.
  pub mwaitc_flags-held :
      (mwaitc_flags timeout full_mask w ≡ (if ltb (state_of w) 2 then some (held_of w) else none))
      × (mwaitc_flags timeout empty_mask w
          ≡ (if leb 2 (state_of w) then some (held_of w) else none))
      × (mwaitc_flags timeout any_mask w ≡ some (held_of w))
  mwaitc_flags-held = (
    flags_if (ltb (state_of w) 2) _ waits_full,
    flags_if (leb 2 (state_of w)) _ waits_empty,
    ap (λ r. r.1) waits_any,
  )

  -- On a word that is not locked, has one of the four states and is changed by no one else,
  -- `qthread_mwaitc` with a timeout above 0 ends with no failed assertion. With the mask for full
  -- words it takes the lock exactly if the word is full, with that for empty words exactly if it is
  -- empty, with that for any always: then it leaves the word locked and returns its value and
  -- flags. Otherwise it times out and leaves the word unlocked, as it was.
  pub mwaitc-held :
      0 < timeout
      → (mwaitc timeout full_mask w
          ≡ some (if ltb (state_of w) 2 then (w + 1, some (held_of w)) else (w, none)))
        × (mwaitc timeout empty_mask w
            ≡ some (if leb 2 (state_of w) then (w + 1, some (held_of w)) else (w, none)))
        × (mwaitc timeout any_mask w ≡ some (w + 1, some (held_of w)))
  unfolding mwaitc
  mwaitc-held h =
      let z : (timeout == 0) ≡ false = ground (arith, h) in
      (rw z (ap some waits_full), rw z (ap some waits_empty), rw z (ap some waits_any))
