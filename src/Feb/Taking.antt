-- ===== src/Feb/Taking.antt =====
-- What a read that empties a word takes, and who refills it.
use qthreads.Feb.State.{
  AddrRes, AddrStat, addrstat_new, Feb, Status, success, align, choose_stripe, is_nil, copy_word,
  schedule, feb_status,
}
use qthreads.Feb.Lock.{Locked, set_full, wake_ef, empty_inner, rounds, gotlock_empty}
use qthreads.Feb.Ops.{Pools, read_fe_locked, read_fe, read_fe_nb_locked, read_fe_nb}
use qthreads.Feb.Cascade.{List-cases}
use qthreads.Feb.Cascade.Closed.{empty_idle, empty_hands_over}
use qthreads.Feb.Delivery.{copy_word-dest}
use qthreads.Feb.Delivery.Calls.{put_same}
use qthreads.Feb.Level.{level, release-SameWords, feb_status-level}
use qthreads.Prelude.{
  ℕ, suc, ◌-◌, ◌≡◌, ◌≢◌, refl, sym, subst, ◌∙◌, ap, true, false, not, ◌&&◌, none, some, List, [],
  ◌∷◌, inl, inr, on_true, on_none, on_some, length, arith,
}

copy_word-other : (d r a : ℕ) (mem : ℕ → ℕ) → a ≢ d → copy_word d r mem a ≡ mem a
unfolding copy_word
copy_word-other d r a mem h = ground arith

-- The word that the first waiting writer, if there is one, puts in the place of `v`.
abbrev pub refill : ℕ → (ℕ → ℕ) → List AddrRes → ℕ
refill v mem [] = v
refill v mem (x ∷ q) = mem (x.addr)

record Empties (src : ℕ) (mem : ℕ → ℕ) (m : AddrStat) (l : Locked) : Type 0 where
  word : l.feb.mem src ≡ refill (mem src) mem m.efq
  others : (a : ℕ) → a ≢ src → l.feb.mem a ≡ mem a
  state : l.m.full ≡ not (is_nil m.efq)

empty_inner-Empties :
    (shep src : ℕ) (l : Locked)
    → src ≢ 0
    → l.m.feq ≡ []
    → l.m.ffq ≡ []
    → Empties src l.feb.mem l.m (empty_inner (rounds l.m) shep src l)
unfolding wake_ef schedule
empty_inner-Empties shep src l nz no_takers no_readers =
    let mem = l.feb.mem in
    elim (List-cases l.m.efq) [
      | inl e ↦
          let fuel : rounds l.m ≡ suc (rounds l.m - 1) = omega arith in
          let run : empty_inner (rounds l.m) shep src l ≡ set_full false l =
            ap (λ n. empty_inner n shep src l) fuel ∙ empty_idle (rounds l.m - 1) shep src l e in
          subst (Empties src mem l.m) (sym run) (record {
            word = sym (ap (refill (mem src) mem) e);
            others = λ a h. refl;
            state = sym (ap (λ k. not (is_nil k)) e);
          })
      | inr (x, q, e) ↦
          let fuel : rounds l.m ≡ suc (suc (rounds l.m - 2)) = omega (arith, ap length e) in
          let t = set_full false l in
          let run : empty_inner (rounds l.m) shep src l ≡ set_full true (wake_ef shep src x q t) =
            ap (λ n. empty_inner n shep src l) fuel
            ∙ empty_hands_over (rounds l.m - 2) shep src l x q e no_takers no_readers in
          subst (Empties src mem l.m) (sym run) (record {
            word = copy_word-dest src x.addr mem nz ∙ sym (ap (refill (mem src) mem) e);
            others = λ a h. copy_word-other src x.addr a mem h;
            state = sym (ap (λ k. not (is_nil k)) e);
          })
    ]

-- What is seen after a call that empties `src` into `dest`, where the EFQ held `writers`: the old
-- word was copied, and the word is full again exactly when a writer waited, with the first
-- writer's word in it.
pub record Taken (dest src : ℕ) (s : Feb) (writers : List AddrRes) (r : Feb × Status) : Type 0 where
  pub returns : r.1 ≡ success
  pub taken : dest ≢ 0 → r.0.mem dest ≡ s.mem src
  pub word : r.0.mem src ≡ refill (s.mem src) (copy_word dest src s.mem) writers
  pub state : feb_status src r.0 ≡ not (is_nil writers)

pub record IsFull (m : AddrStat) : Type 0 where
  pub is_full : m.full ≡ true
  pub no_takers : m.feq ≡ []
  pub no_readers : m.ffq ≡ []

module _ (dest src : ℕ) (s : Feb) (nz : src ≢ 0) (apart : dest ≢ src)
    (aligned : align src ≡ src) where
  gotlock_empty-Taken :
      (shep : ℕ) (m : AddrStat) (t : Feb)
      → IsFull m
      → t.mem ≡ copy_word dest src s.mem
      → Taken dest src s m.efq (gotlock_empty (choose_stripe src) shep (align src) m t, success)
  unfolding gotlock_empty
  gotlock_empty-Taken shep m t h e =
      let l : Locked = record { feb = t; m = m; precond_tasks = [] } in
      let bin = choose_stripe src in
      let after = empty_inner (rounds m) shep src l in
      let d = empty_inner-Empties shep src l nz h.no_takers h.no_readers in
      let same =
        release-SameWords bin shep src
          (after.m.full && (is_nil after.m.efq && (is_nil after.m.feq && is_nil after.m.ffq)))
          after in
      let got = copy_word-dest dest src s.mem in
      subst (λ a. Taken dest src s m.efq (gotlock_empty bin shep a m t, success)) (sym aligned)
        (record {
          returns = refl;
          taken = λ pos.
              ap (λ (f : ℕ → ℕ). f dest) same.mem
              ∙ d.others dest apart
              ∙ ap (λ (f : ℕ → ℕ). f dest) e
              ∙ got pos;
          word =
              ap (λ (f : ℕ → ℕ). f src) same.mem
              ∙ d.word
              ∙ ap (λ (f : ℕ → ℕ). refill (f src) f m.efq) e
              ∙ ap (λ k. refill k (copy_word dest src s.mem) m.efq)
                  (copy_word-other dest src src s.mem (λ p. apart (sym p)));
          state =
              feb_status-level src _
              ∙ ap (λ a. level ((gotlock_empty bin shep src m t).table bin a)) aligned
              ∙ same.levels bin src
              ∙ ap level (put_same bin src (some after.m) after.feb)
              ∙ d.state;
        })

  entry :
      (m : AddrStat)
      → s.table (choose_stripe src) src ≡ some m
      → s.table (choose_stripe src) (align src) ≡ some m
  entry m e = ap (s.table (choose_stripe src)) aligned ∙ e

  -- `qthread_readFE` of an aligned word that has an entry in the table, marked full, at another address
  -- than the destination and not the null address, succeeds: the destination has the word; if a writer waited, the word has the first
  -- writer's value and is full, and otherwise it is empty and holds what it held.
  pub read_fe-Taken :
      (pools : Pools) (me : ℕ) (m : AddrStat)
      → s.table (choose_stripe src) src ≡ some m
      → IsFull m
      → Taken dest src s m.efq (read_fe pools me dest src s)
  unfolding read_fe read_fe_locked
  read_fe-Taken pools me m e h =
      on_some (Taken dest src s m.efq) _ _ (entry m e)
        (on_true (Taken dest src s m.efq) _ h.is_full (gotlock_empty-Taken _ m _ h refl))

  -- `qthread_readFE_nb`
  pub read_fe_nb-Taken :
      (pools : Pools) (me : ℕ) (m : AddrStat)
      → s.table (choose_stripe src) src ≡ some m
      → IsFull m
      → Taken dest src s m.efq (read_fe_nb pools me dest src s)
  unfolding read_fe_nb read_fe_nb_locked
  read_fe_nb-Taken pools me m e h =
      on_some (Taken dest src s m.efq) _ _ (entry m e)
        (on_true (Taken dest src s m.efq) _ h.is_full (gotlock_empty-Taken _ m _ h refl))

  -- A word without an entry is full: `qthread_readFE` takes it and leaves it empty.
  pub read_fe_new-Taken :
      (pools : Pools) (me : ℕ)
      → s.table (choose_stripe src) src ≡ none
      → pools.addrstat ≡ true
      → Taken dest src s [] (read_fe pools me dest src s)
  unfolding read_fe read_fe_locked
  read_fe_new-Taken pools me e room =
      on_none (Taken dest src s []) _ (ap (s.table (choose_stripe src)) aligned ∙ e) (
        on_true (Taken dest src s []) _ room (
          gotlock_empty-Taken _ addrstat_new _
            (record { is_full = refl; no_takers = refl; no_readers = refl }) refl))
