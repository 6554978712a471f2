-- ===== src/Feb/Cascade/Closed.antt =====
-- From a settled state the cascade is short: at most one waiter of the FEQ or of the EFQ goes on.
use qthreads.Feb.State.{AddrRes, AddrStat}
use qthreads.Feb.Lock.{Locked, drain_ffq, set_full, wake_fe, wake_ef, fill_inner, empty_inner}
use qthreads.Feb.Cascade.{Filling, Emptying, fill_round, empty_round, filled, filled-m}
use qthreads.Prelude.{ℕ, suc, ◌≡◌, ◌∙◌, ap, true, false, List, [], ◌∷◌, arith}

module _ (n shep maddr : ℕ) (l : Locked) where
  -- Nobody waits to read and empty: the word stays full.
  pub fill_idle : l.m.feq ≡ [] → fill_inner (suc n) shep maddr l ≡ filled shep maddr l
  fill_idle h = elim (fill_round n shep maddr l) [
    | Filling.ends e r ↦ r
    | Filling.wakes x q e r ↦ cc
  ]

  pub empty_idle : l.m.efq ≡ [] → empty_inner (suc n) shep maddr l ≡ set_full false l
  empty_idle h = elim (empty_round n shep maddr l) [
    | Emptying.ends e r ↦ r
    | Emptying.wakes x q e r ↦ cc
  ]

pub filled_none :
    (shep maddr : ℕ) (l : Locked) → l.m.ffq ≡ [] → filled shep maddr l ≡ set_full true l
unfolding drain_ffq
filled_none shep maddr l h = ap (λ k. drain_ffq shep maddr k (set_full true l)) h

-- A reader takes the word that was filled, and leaves it empty.
pub fill_hands_over :
    (n shep maddr : ℕ) (l : Locked) (x : AddrRes) (q : List AddrRes)
    → l.m.feq ≡ x ∷ q
    → l.m.efq ≡ []
    → fill_inner (suc (suc n)) shep maddr l
      ≡ set_full false (wake_fe shep maddr x q (filled shep maddr l))
unfolding wake_fe
fill_hands_over n shep maddr l x q h none_writes = elim (fill_round (suc n) shep maddr l) [
  | Filling.ends e r ↦ cc
  | Filling.wakes y p e r ↦
      let same : (y ≡ x) × (p ≡ q) = ground arith in
      let idle = ap AddrStat.efq (filled-m shep maddr l) ∙ none_writes in
      r
      ∙ ap (λ k. empty_inner (suc n) shep maddr (wake_fe shep maddr k p (filled shep maddr l)))
          same.0
      ∙ ap (λ k. empty_inner (suc n) shep maddr (wake_fe shep maddr x k (filled shep maddr l)))
          same.1
      ∙ empty_idle n shep maddr (wake_fe shep maddr x q (filled shep maddr l)) idle
]

-- A writer fills the word that was emptied.
pub empty_hands_over :
    (n shep maddr : ℕ) (l : Locked) (x : AddrRes) (q : List AddrRes)
    → l.m.efq ≡ x ∷ q
    → l.m.feq ≡ []
    → l.m.ffq ≡ []
    → empty_inner (suc (suc n)) shep maddr l
      ≡ set_full true (wake_ef shep maddr x q (set_full false l))
unfolding wake_ef
empty_hands_over n shep maddr l x q h none_reads none_peeks =
    elim (empty_round (suc n) shep maddr l) [
      | Emptying.ends e r ↦ cc
      | Emptying.wakes y p e r ↦
          let same : (y ≡ x) × (p ≡ q) = ground arith in
          let next = wake_ef shep maddr x q (set_full false l) in
          r
          ∙ ap (λ k. fill_inner (suc n) shep maddr (wake_ef shep maddr k p (set_full false l)))
              same.0
          ∙ ap (λ k. fill_inner (suc n) shep maddr (wake_ef shep maddr x k (set_full false l)))
              same.1
          ∙ fill_idle n shep maddr next none_reads
          ∙ filled_none shep maddr next none_peeks
    ]
