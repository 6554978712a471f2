-- ===== src/Feb/Cascade.antt =====
-- The cascade of wake-ups under one lock: it ends, in a state where no waiter could go on, and it
-- loses and doubles no waiter.
pub mod Account
pub mod Keeps
pub mod Closed
use qthreads.Feb.State.{AddrRes, AddrStat, is_nascent, schedule}
use qthreads.Feb.Lock.{
  Locked, wake_ff, drain_ffq, set_full, wake_fe, wake_ef, fill_inner, empty_inner,
}
use qthreads.Prelude.{
  ℕ, zero, suc, ◌+◌, ◌<◌, ◌≡◌, refl, ◌∙◌, ap, ◌⊎◌, Bool, true, false, List, [], ◌∷◌, length, total,
  total-append, ◌==◌, if◌then◌else◌, inl, inr, arith,
}

-- No waiter is left that the state of the word would let go on: a full word has no waiting reader,
-- and an empty word no waiting writer.
pub record IsSettled (m : AddrStat) : Type 0 where
  pub no_reader : m.full ≡ true → (m.feq ≡ []) × (m.ffq ≡ [])
  pub no_writer : m.full ≡ false → m.efq ≡ []

pub drain_ffq-m :
    (shep maddr : ℕ) (q : List AddrRes) (l : Locked)
    → l.m.ffq ≡ q
    → (drain_ffq shep maddr q l).m ≡ record (l.m) { ffq = [] }
unfolding drain_ffq wake_ff
drain_ffq-m shep maddr [] l h = ground arith
drain_ffq-m shep maddr (x ∷ q) l h =
    ground (arith, drain_ffq-m shep maddr q (wake_ff shep maddr x q l))

-- The word is full and the FFQ is drained.
abbrev pub filled : ℕ → ℕ → Locked → Locked
filled shep maddr l = drain_ffq shep maddr l.m.ffq (set_full true l)

pub filled-m :
    (shep maddr : ℕ) (l : Locked) → (filled shep maddr l).m ≡ record (l.m) { full = true; ffq = [] }
filled-m shep maddr l = drain_ffq-m shep maddr l.m.ffq (set_full true l) refl

-- One round of each function: it ends, or it wakes one waiter and calls the other.
pub data Filling (n shep maddr : ℕ) (l : Locked) : Type 0 where
  ends :
      l.m.feq ≡ [] → fill_inner (suc n) shep maddr l ≡ filled shep maddr l → Filling n shep maddr l
  wakes :
      (x : AddrRes) (q : List AddrRes)
      → l.m.feq ≡ x ∷ q
      → fill_inner (suc n) shep maddr l
        ≡ empty_inner n shep maddr (wake_fe shep maddr x q (filled shep maddr l))
      → Filling n shep maddr l

pub data Emptying (n shep maddr : ℕ) (l : Locked) : Type 0 where
  ends :
      l.m.efq ≡ [] → empty_inner (suc n) shep maddr l ≡ set_full false l → Emptying n shep maddr l
  wakes :
      (x : AddrRes) (q : List AddrRes)
      → l.m.efq ≡ x ∷ q
      → empty_inner (suc n) shep maddr l
        ≡ fill_inner n shep maddr (wake_ef shep maddr x q (set_full false l))
      → Emptying n shep maddr l

pub List-cases : (q : List AddrRes) → (q ≡ []) ⊎ ((x : AddrRes) × (r : List AddrRes) × (q ≡ x ∷ r))
List-cases [] = inl refl
List-cases (x ∷ r) = inr (x, r, refl)

pub fill_round : (n shep maddr : ℕ) (l : Locked) → Filling n shep maddr l
unfolding fill_inner
fill_round n shep maddr l = elim (List-cases l.m.feq) [
  | inl e ↦
      let e' = ap AddrStat.feq (filled-m shep maddr l) ∙ e in Filling.ends e (simp (e', fill_inner))
  | inr (x, q, e) ↦
      let e' = ap AddrStat.feq (filled-m shep maddr l) ∙ e in
      Filling.wakes x q e (simp (e', fill_inner))
]

pub empty_round : (n shep maddr : ℕ) (l : Locked) → Emptying n shep maddr l
unfolding empty_inner
empty_round n shep maddr l = elim (List-cases l.m.efq) [
  | inl e ↦ Emptying.ends e (simp (e, empty_inner))
  | inr (x, q, e) ↦ Emptying.wakes x q e (simp (e, empty_inner))
]

pub fill_spent : (shep maddr : ℕ) (l : Locked) → fill_inner 0 shep maddr l ≡ l
unfolding fill_inner
fill_spent shep maddr l = refl

pub empty_spent : (shep maddr : ℕ) (l : Locked) → empty_inner 0 shep maddr l ≡ l
unfolding fill_inner
empty_spent shep maddr l = refl

mutual
  unfolding wake_fe wake_ef

  pub fill_settles :
      (n shep maddr : ℕ) (l : Locked)
      → length l.m.feq + length l.m.efq < n
      → IsSettled (fill_inner n shep maddr l).m
  fill_settles zero shep maddr l h = absurd (omega arith)
  fill_settles (suc n) shep maddr l h = elim (fill_round n shep maddr l) [
    | Filling.ends e r ↦ rw (r, filled-m) (ground arith)
    | Filling.wakes x q e r ↦
        rw r (empty_settles n shep maddr _ (rw (filled-m) (omega (arith, ap length e))))
  ]

  pub empty_settles :
      (n shep maddr : ℕ) (l : Locked)
      → length l.m.feq + length l.m.efq < n
      → IsSettled (empty_inner n shep maddr l).m
  empty_settles zero shep maddr l h = absurd (omega arith)
  empty_settles (suc n) shep maddr l h = elim (empty_round n shep maddr l) [
    | Emptying.ends e r ↦ rw r (ground arith)
    | Emptying.wakes x q e r ↦ rw r (fill_settles n shep maddr _ (omega (arith, ap length e)))
  ]

-- With more fuel than there are waiting takers and writers the two functions that call one another
-- end settled, from every state: if the word is left full nobody waits to read it, and if it is
-- left empty nobody waits to write it.
pub inner-IsSettled :
    (n shep maddr : ℕ) (l : Locked)
    → length l.m.feq + length l.m.efq < n
    → IsSettled (fill_inner n shep maddr l).m × IsSettled (empty_inner n shep maddr l).m
inner-IsSettled n shep maddr l h = (fill_settles n shep maddr l h, empty_settles n shep maddr l h)
