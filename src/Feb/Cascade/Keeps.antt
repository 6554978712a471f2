-- ===== src/Feb/Cascade/Keeps.antt =====
-- A property of the locked state that each single change keeps is kept by the cascade.
use qthreads.Feb.State.{AddrRes, AddrStat, schedule, is_nascent}
use qthreads.Feb.Lock.{
  Locked, wake_ff, drain_ffq, set_full, wake_fe, wake_ef, fill_inner, empty_inner,
}
use qthreads.Feb.Cascade.{
  Filling, Emptying, fill_round, empty_round, filled, fill_spent, empty_spent,
}
use qthreads.Prelude.{
  ℕ, zero, suc, ◌≡◌, Bool, true, false, Option, List, [], ◌∷◌, inl, inr, Bool-cases,
}

module _ (P : Locked → Type 0) (shep maddr : ℕ)
    (keep_full : (b : Bool) (l : Locked) → P l → P (set_full b l))
    (keep_ff : (x : AddrRes) (q : List AddrRes) (l : Locked) → P l → P (wake_ff shep maddr x q l))
    (keep_fe : (x : AddrRes) (q : List AddrRes) (l : Locked) → P l → P (wake_fe shep maddr x q l))
    (keep_ef : (x : AddrRes) (q : List AddrRes) (l : Locked)
      → P l
      → P (wake_ef shep maddr x q l)) where
  drain_keeps : (q : List AddrRes) (l : Locked) → P l → P (drain_ffq shep maddr q l)
  unfolding drain_ffq
  drain_keeps [] l p = p
  drain_keeps (x ∷ q) l p = drain_keeps q _ (keep_ff x q l p)

  pub filled_keeps : (l : Locked) → P l → P (filled shep maddr l)
  filled_keeps l p = drain_keeps l.m.ffq _ (keep_full true l p)

  mutual
    pub fill_keeps : (n : ℕ) (l : Locked) → P l → P (fill_inner n shep maddr l)
    fill_keeps zero l p = rw (fill_spent shep maddr l) p
    fill_keeps (suc n) l p = elim (fill_round n shep maddr l) [
      | Filling.ends e r ↦ rw r (filled_keeps l p)
      | Filling.wakes x q e r ↦ rw r (empty_keeps n _ (keep_fe x q _ (filled_keeps l p)))
    ]

    pub empty_keeps : (n : ℕ) (l : Locked) → P l → P (empty_inner n shep maddr l)
    empty_keeps zero l p = rw (empty_spent shep maddr l) p
    empty_keeps (suc n) l p = elim (empty_round n shep maddr l) [
      | Emptying.ends e r ↦ rw r (keep_full false l p)
      | Emptying.wakes x q e r ↦ rw r (fill_keeps n _ (keep_ef x q _ (keep_full false l p)))
    ]

module _ (shep maddr : ℕ) (tab : ℕ → ℕ → Option AddrStat) where
  abbrev HasTable : Locked → Type 0
  HasTable l = l.feb.table ≡ tab

  ff-table :
      (x : AddrRes) (q : List AddrRes) (l : Locked)
      → HasTable l
      → HasTable (wake_ff shep maddr x q l)
  unfolding wake_ff schedule
  ff-table x q l h = elim (Bool-cases (is_nascent (l.feb.threads x.waiter).thread_state)) [
    | inl b ↦ rw b h
    | inr b ↦ rw b h
  ]

  fe-table :
      (x : AddrRes) (q : List AddrRes) (l : Locked)
      → HasTable l
      → HasTable (wake_fe shep maddr x q l)
  unfolding wake_fe schedule
  fe-table x q l h = h

  ef-table :
      (x : AddrRes) (q : List AddrRes) (l : Locked)
      → HasTable l
      → HasTable (wake_ef shep maddr x q l)
  unfolding wake_ef schedule
  ef-table x q l h = h

  pub fill-table : (n : ℕ) (l : Locked) → HasTable l → HasTable (fill_inner n shep maddr l)
  fill-table = fill_keeps HasTable shep maddr (λ b l h. h) ff-table fe-table ef-table

  pub empty-table : (n : ℕ) (l : Locked) → HasTable l → HasTable (empty_inner n shep maddr l)
  empty-table = empty_keeps HasTable shep maddr (λ b l h. h) ff-table fe-table ef-table
