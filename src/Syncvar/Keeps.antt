-- ===== src/Syncvar/Keeps.antt =====
-- Every call of src/syncvar.c keeps the invariant, and no assertion of it fails.
use qthreads.Feb.State.{is_nil}
use qthreads.Syncvar.Word.{
  held_of, state_of, value_of, Held, mwaitc_flags, full_mask, empty_mask, any_mask,
}
use qthreads.Syncvar.State.{
  Var, Outcome, success, opfail, timeout, asserted, blocked, value, unlock, hold,
}
use qthreads.Syncvar.Lock.{release_waiters, release_writer, entry_of, filled_state}
use qthreads.Syncvar.Layout.{IsFree, mwaitc_flags-held}
use qthreads.Syncvar.Invariant.{Fits, IsValid, built-IsValid, var_fill-IsValid}
use qthreads.Syncvar.Moves.{
  Kept, idle-either, joined_ffq-Fits, joined_feq-Fits, joined_efq-Fits, release_waiters-Kept,
  release_writer-Kept,
}
use qthreads.Syncvar.Ops.{
  int_max, initial_timeout, flag, is_plain_full, shepherd_of, join_ffq, join_feq, join_efq,
  var_read_ff, var_read_ff_nb, var_set_full, var_set_empty, then_store, take_held, var_read_fe,
  var_read_fe_nb, too_big, var_write_f, write_held, var_write_ef, var_write_ef_nb, incr_waiters,
  var_incr_f,
}
use qthreads.Prelude.{
  ℕ, zero, suc, ◌+◌, ◌*◌, ◌/◌, ◌%◌, ◌^◌, ◌≤◌, ◌<◌, ◌≡◌, ◌≢◌, refl, sym, ◌∙◌, ap, subst, Bool, true,
  false, not, ◌&&◌, none, some, [], ◌==◌, if◌then◌else◌, ltb, leb, update, on_true, on_false,
  on_none, on_some, if_both, option_both, Bool-cases, inl, inr, arith,
}

free : {v : Var} → IsValid v → IsFree v.word
free i = record { unlocked = i.unlocked; known = i.fits.known }

-- The flags of a word and its state.
flags :
    (s : ℕ)
    → s < 4
    → ((s / 2 % 2 == 1) ≡ leb 2 s)
      × (s < 2 → flag (s % 2 == 1) ≡ s)
      × (2 ≤ s → 2 + flag (s % 2 == 1) ≡ s)
flags zero h = (refl, λ k. refl, λ k. absurd (omega arith))
flags (suc zero) h = (refl, λ k. refl, λ k. absurd (omega arith))
flags (suc (suc zero)) h = (refl, λ k. absurd (omega arith), λ k. refl)
flags (suc (suc (suc zero))) h = (refl, λ k. absurd (omega arith), λ k. refl)
flags (suc (suc (suc (suc n)))) h = absurd (omega arith)

both : (a b : Bool) → (a && b) ≡ true → (a ≡ true) × (b ≡ true)
both true b h = (refl, h)
both false b h = cc

pub all_flags : (s : ℕ) → s < 4 → 2 * flag (s / 2 % 2 == 1) + flag (s % 2 == 1) ≡ s
all_flags zero h = refl
all_flags (suc zero) h = refl
all_flags (suc (suc zero)) h = refl
all_flags (suc (suc (suc zero))) h = refl
all_flags (suc (suc (suc (suc n)))) h = absurd (omega arith)

then_store-Kept : (dest ret : ℕ) (r : Var × Outcome) → Kept r → Kept (then_store dest ret r)
then_store-Kept dest ret (v, success) (i, e) = (record { unlocked = i.unlocked; fits = i.fits }, e)
then_store-Kept dest ret (v, opfail) (i, e) = (record { unlocked = i.unlocked; fits = i.fits }, e)
then_store-Kept dest ret (v, timeout) (i, e) = cc
then_store-Kept dest ret (v, asserted) (i, e) = (i, e)
then_store-Kept dest ret (v, blocked) (i, e) = (record { unlocked = i.unlocked; fits = i.fits }, e)
then_store-Kept dest ret (v, value n) (i, e) = (record { unlocked = i.unlocked; fits = i.fits }, e)

-- A call that holds the lock goes on in one way if the word is full, and in another if it is empty.
module _ (v : Var) (i : IsValid v) where
  any_held : (t : ℕ) → mwaitc_flags t any_mask v.word ≡ some (held_of v.word)
  any_held t = (mwaitc_flags-held t v.word (free i)).2

  is_empty : (held_of v.word).pf ≡ true → 2 ≤ state_of v.word
  is_empty t = let e = sym (flags (state_of v.word) i.fits.known).0 ∙ t in ground (arith, e)

  is_full : (held_of v.word).pf ≡ false → state_of v.word < 2
  is_full t = let e = sym (flags (state_of v.word) i.fits.known).0 ∙ t in ground (arith, e)

  pub has_waiters : (held_of v.word).sf ≡ true → state_of v.word % 2 ≡ 1
  has_waiters t = ground (arith, t)

  pub has_none : (held_of v.word).sf ≡ false → state_of v.word % 2 ≡ 0
  has_none t = ground (arith, t)

  -- The word is written with another value and the state as it was.
  same_state-Kept :
      (val state : ℕ) (mem : ℕ → ℕ)
      → state ≡ state_of v.word
      → Kept (record (unlock val state (hold v)) { mem = mem }, success)
  same_state-Kept val state mem e = (
    built-IsValid (record (unlock val state (hold v)) { mem = mem }) val state refl
        (subst (λ k. Fits v.addr k (entry_of v.entry)) (sym e) i.fits),
    refl,
  )

  -- The word is written full or empty when no one waits.
  idle_state-Kept :
      (val : ℕ) (mem : ℕ → ℕ)
      → state_of v.word % 2 ≡ 0
      → Kept (record (unlock val 0 (hold v)) { mem = mem }, success)
        × Kept (record (unlock val 2 (hold v)) { mem = mem }, success)
  idle_state-Kept val mem even =
      let f = idle-either v.addr (state_of v.word) (entry_of v.entry) i.fits even in
      (
        (built-IsValid (record (unlock val 0 (hold v)) { mem = mem }) val 0 refl f.0, refl),
        (built-IsValid (record (unlock val 2 (hold v)) { mem = mem }) val 2 refl f.1, refl),
      )

  -- Who waits for a full word when waiters are flagged, and who for an empty one.
  empty_waiters-Kept :
      (shep val : ℕ)
      → 2 ≤ state_of v.word
      → state_of v.word % 2 ≡ 1
      → Kept (release_waiters shep val (hold v))
  empty_waiters-Kept shep val h odd =
      release_waiters-Kept shep val (hold v)
        (subst (λ k. Fits v.addr k (entry_of v.entry)) (omega (arith, i.fits.known)) i.fits)

  full_waiters-Kept :
      (shep : ℕ)
      → state_of v.word < 2
      → state_of v.word % 2 ≡ 1
      → Kept (release_writer shep (hold v))
  full_waiters-Kept shep h odd =
      release_writer-Kept shep (hold v)
        (subst (λ k. Fits v.addr k (entry_of v.entry)) (omega (arith, i.fits.known)) i.fits)

  -- The state is written back as it was.
  full_again-Kept :
      (mem : ℕ → ℕ)
      → state_of v.word < 2
      → Kept (
        record (unlock (value_of v.word) (flag (held_of v.word).sf) (hold v)) { mem = mem },
        success,
      )
  full_again-Kept mem h =
      same_state-Kept (value_of v.word) (flag (held_of v.word).sf) mem
        ((flags (state_of v.word) i.fits.known).1 h)

  pub set_full-Kept : (shep : ℕ) → Kept (var_set_full shep v)
  unfolding var_set_full
  set_full-Kept shep = on_some Kept _ _ (any_held int_max) (
      if_both Kept (held_of v.word).pf
        (λ t.
          if_both Kept (held_of v.word).sf
            (λ u. empty_waiters-Kept shep (value_of v.word) (is_empty t) (has_waiters u))
            (λ u. (idle_state-Kept (value_of v.word) v.mem (has_none u)).0))
        (λ t. full_again-Kept v.mem (is_full t)))

  pub set_empty-Kept : (shep : ℕ) → Kept (var_set_empty shep v)
  unfolding var_set_empty
  set_empty-Kept shep = on_some Kept _ _ (any_held int_max) (
      if_both Kept (held_of v.word).pf
        (λ t.
          same_state-Kept (value_of v.word) (2 + flag (held_of v.word).sf) v.mem
            ((flags (state_of v.word) i.fits.known).2 (is_empty t)))
        (λ t.
          if_both Kept (held_of v.word).sf (λ u. full_waiters-Kept shep (is_full t) (has_waiters u))
            (λ u. (idle_state-Kept (value_of v.word) v.mem (has_none u)).1)))

  -- What a read of a full word leaves.
  plain-Kept : (mem : ℕ → ℕ) → Kept (record v { mem = mem }, success)
  plain-Kept mem = (record { unlocked = i.unlocked; fits = i.fits }, refl)

  full_held :
      (t : ℕ)
      → mwaitc_flags t full_mask v.word
        ≡ (if ltb (state_of v.word) 2 then some (held_of v.word) else none)
  full_held t = (mwaitc_flags-held t v.word (free i)).0

  empty_held :
      (t : ℕ)
      → mwaitc_flags t empty_mask v.word
        ≡ (if leb 2 (state_of v.word) then some (held_of v.word) else none)
  empty_held t = (mwaitc_flags-held t v.word (free i)).1

  -- The two sides of a wait for a full word and of one for an empty word.
  try_full :
      {A : Type 0} (P : A → Type 0) (t : ℕ) (x : A) (f : Held → A)
      → (2 ≤ state_of v.word → P x)
      → (state_of v.word < 2 → P (f (held_of v.word)))
      → P (elim (mwaitc_flags t full_mask v.word) [ none ↦ x | some h ↦ f h ])
  try_full P t x f h k = elim (Bool-cases (ltb (state_of v.word) 2)) [
    | inl u ↦
        on_some P x f (full_held t ∙ ap (λ b. if b then some (held_of v.word) else none) u)
          (k (ground (arith, u)))
    | inr u ↦
        on_none P f (full_held t ∙ ap (λ b. if b then some (held_of v.word) else none) u)
          (h (ground (arith, u)))
  ]

  pub try_empty :
      {A : Type 0} (P : A → Type 0) (t : ℕ) (x : A) (f : Held → A)
      → (state_of v.word < 2 → P x)
      → (2 ≤ state_of v.word → P (f (held_of v.word)))
      → P (elim (mwaitc_flags t empty_mask v.word) [ none ↦ x | some h ↦ f h ])
  try_empty P t x f h k = elim (Bool-cases (leb 2 (state_of v.word))) [
    | inl u ↦
        on_some P x f (empty_held t ∙ ap (λ b. if b then some (held_of v.word) else none) u)
          (k (ground (arith, u)))
    | inr u ↦
        on_none P f (empty_held t ∙ ap (λ b. if b then some (held_of v.word) else none) u)
          (h (ground (arith, u)))
  ]

  pf_empty : 2 ≤ state_of v.word → (held_of v.word).pf ≡ true
  pf_empty h = (flags (state_of v.word) i.fits.known).0 ∙ ground (arith, h)

  pf_full : state_of v.word < 2 → (held_of v.word).pf ≡ false
  pf_full h = (flags (state_of v.word) i.fits.known).0 ∙ ground (arith, h)

  join_ffq-Kept :
      (me dest : ℕ) → 2 ≤ state_of v.word → Kept (join_ffq me dest (value_of v.word) (hold v))
  join_ffq-Kept me dest h = (
    built-IsValid _ (value_of v.word) 3 refl (
        joined_ffq-Fits v.addr (state_of v.word) (entry_of v.entry)
          (record { addr = dest; waiter = me }) h i.fits),
    refl,
  )

  join_feq-Kept :
      (me dest : ℕ) → 2 ≤ state_of v.word → Kept (join_feq me dest (value_of v.word) (hold v))
  join_feq-Kept me dest h = (
    built-IsValid _ (value_of v.word) 3 refl (
        joined_feq-Fits v.addr (state_of v.word) (entry_of v.entry)
          (record { addr = dest; waiter = me }) h i.fits),
    refl,
  )

  join_efq-Kept :
      (me src : ℕ)
      → v.addr ≢ src
      → state_of v.word < 2
      → Kept (join_efq me src (value_of v.word) (hold v))
  join_efq-Kept me src apart h = (
    built-IsValid _ (value_of v.word) 1 refl (
        joined_efq-Fits v.addr (state_of v.word) (entry_of v.entry)
          (record { addr = src; waiter = me }) h apart i.fits),
    refl,
  )

  pub read_ff-Kept : (me dest : ℕ) → Kept (var_read_ff me dest v)
  unfolding var_read_ff
  read_ff-Kept me dest =
      let mem = if dest == 0 then v.mem else update v.mem dest (value_of v.word) in
      if_both Kept (is_plain_full v.word) (λ t. plain-Kept mem)
        (λ t.
          try_full Kept initial_timeout _ _
            (λ h.
              on_some Kept _ _ (any_held int_max)
                (on_true Kept {b = (held_of v.word).pf} _ (pf_empty h) (join_ffq-Kept me dest h)))
            (λ h. full_again-Kept mem h))

  pub read_ff_nb-Kept : (dest : ℕ) → Kept (var_read_ff_nb dest v)
  unfolding var_read_ff_nb
  read_ff_nb-Kept dest =
      let mem = if dest == 0 then v.mem else update v.mem dest (value_of v.word) in
      if_both Kept (is_plain_full v.word) (λ t. plain-Kept mem)
        (λ t. try_full Kept 1 _ _ (λ h. (i, refl)) (λ h. full_again-Kept mem h))

  take_held-Kept :
      (shep dest : ℕ) → state_of v.word < 2 → Kept (take_held shep dest (held_of v.word) (hold v))
  unfolding take_held
  take_held-Kept shep dest h = then_store-Kept dest (value_of v.word) _ (
      if_both Kept (held_of v.word).sf (λ t. full_waiters-Kept shep h (has_waiters t))
        (λ t. (idle_state-Kept (value_of v.word) v.mem (has_none t)).1))

  pub read_fe-Kept : (me dest : ℕ) → Kept (var_read_fe me dest v)
  unfolding var_read_fe
  read_fe-Kept me dest =
      try_full Kept initial_timeout _ _
        (λ h.
          on_some Kept _ _ (any_held int_max)
            (on_true Kept {b = (held_of v.word).pf} _ (pf_empty h) (join_feq-Kept me dest h)))
        (λ h. take_held-Kept (shepherd_of me v) dest h)

  pub read_fe_nb-Kept : (me dest : ℕ) → Kept (var_read_fe_nb me dest v)
  unfolding var_read_fe_nb
  read_fe_nb-Kept me dest =
      try_full Kept 1 _ _ (λ h. (i, refl)) (λ h. take_held-Kept (shepherd_of me v) dest h)

  quiet_even :
      state_of v.word ≢ 1
      → ((held_of v.word).pf && (held_of v.word).sf) ≡ false
      → state_of v.word % 2 ≡ 0
  quiet_even quiet u = grind (arith, u, quiet, i.fits.known)

  pub write_f-Kept :
      (shep src : ℕ)
      → state_of v.word ≢ 1
      → too_big (v.mem src) ≡ false
      → Kept (var_write_f shep src v)
  unfolding var_write_f
  write_f-Kept shep src quiet fits =
      on_false Kept {b = too_big (v.mem src)} (v, asserted) fits
        (on_some Kept _ _ (any_held int_max) (
          if_both Kept ((held_of v.word).pf && (held_of v.word).sf)
            (λ u.
              let (p, w) = both (held_of v.word).pf (held_of v.word).sf u in
              empty_waiters-Kept shep (v.mem src) (is_empty p) (has_waiters w))
            (λ u. (idle_state-Kept (v.mem src) v.mem (quiet_even quiet u)).0)))

  write_held-Kept :
      (shep val : ℕ) → 2 ≤ state_of v.word → Kept (write_held shep val (held_of v.word) (hold v))
  unfolding write_held
  write_held-Kept shep val h =
      if_both Kept (held_of v.word).sf (λ t. empty_waiters-Kept shep val h (has_waiters t))
        (λ t. (idle_state-Kept val v.mem (has_none t)).0)

  pub write_ef-Kept :
      (me src : ℕ) → v.addr ≢ src → too_big (v.mem src) ≡ false → Kept (var_write_ef me src v)
  unfolding var_write_ef
  write_ef-Kept me src apart fits =
      on_false Kept {b = too_big (v.mem src)} (v, asserted) fits
        (try_empty Kept initial_timeout _ _
          (λ h.
            on_some Kept _ _ (any_held int_max) (
              on_false Kept {b = (held_of v.word).pf} _ (pf_full h) (join_efq-Kept me src apart h)))
          (λ h. write_held-Kept (shepherd_of me v) (v.mem src) h))

  pub write_ef_nb-Kept :
      (me src : ℕ) → too_big (v.mem src) ≡ false → Kept (var_write_ef_nb me src v)
  unfolding var_write_ef_nb
  write_ef_nb-Kept me src fits =
      on_false Kept {b = too_big (v.mem src)} (v, asserted) fits
        (try_empty Kept 1 _ _ (λ h. (i, refl))
          (λ h. write_held-Kept (shepherd_of me v) (v.mem src) h))

  incr_waiters-Kept :
      (shep newv : ℕ)
      → 2 ≤ state_of v.word
      → state_of v.word % 2 ≡ 1
      → (entry_of v.entry).feq ≡ []
      → Kept (incr_waiters shep newv (hold v))
  unfolding incr_waiters
  incr_waiters-Kept shep newv h odd takers =
      let f : Fits v.addr 3 (entry_of v.entry) =
        subst (λ k. Fits v.addr k (entry_of v.entry)) (omega (arith, i.fits.known)) i.fits in
      option_both Kept v.entry
        (λ e. absurd (let w = (subst (λ o. Fits v.addr 3 (entry_of o)) e f).waiters in cc))
        (λ m e.
          let g = subst (λ o. Fits v.addr 3 (entry_of o)) e f in
          let q = g.no_writer (omega arith) in
          let t : m.feq ≡ [] = subst (λ o. (entry_of o).feq ≡ []) e takers in
          let w = g.waiters in
          on_true Kept {b = not (is_nil m.ffq && is_nil m.efq) && is_nil m.feq}
            (unlock newv (filled_state m) (hold v), asserted) (grind (arith, q, w, t))
            (
              var_fill-IsValid shep newv newv m (unlock newv (filled_state m) (hold v)) q refl,
              refl,
            ))

  pub incr_f-Kept :
      (me inc : ℕ)
      → (state_of v.word ≡ 3 → (entry_of v.entry).feq ≡ [])
      → Kept (var_incr_f me inc v)
  unfolding var_incr_f
  incr_f-Kept me inc no_taker =
      let newv = (value_of v.word + inc) % 2 ^ 64 in
      on_some Kept _ _ (any_held int_max) (
        if_both Kept ((held_of v.word).pf && (held_of v.word).sf)
          (λ u.
            let (p, w) = both (held_of v.word).pf (held_of v.word).sf u in
            incr_waiters-Kept (shepherd_of me v) newv (is_empty p) (has_waiters w)
              (no_taker (omega (arith, is_empty p, has_waiters w, i.fits.known))))
          (λ u. (
            (same_state-Kept newv (2 * flag (held_of v.word).pf + flag (held_of v.word).sf) v.mem
                (all_flags (state_of v.word) i.fits.known)).0,
            refl,
          )))
