-- ===== src/Feb/Delivery/Calls.antt =====
-- The calls of src/feb.c that fill an empty word.
use qthreads.Feb.State.{
  AddrStat, Feb, Status, success, align, choose_stripe, put, is_nil, copy_word, feb_status,
}
use qthreads.Feb.Lock.{Locked, fill_inner, rounds, gotlock_fill}
use qthreads.Feb.Ops.{Pools, fill, write_f, write_ef_locked, write_ef, write_ef_nb}
use qthreads.Feb.Delivery.{AllGot, HeadGot, fill_inner-Delivers, copy_word-dest}
use qthreads.Feb.Level.{level, release-SameWords, feb_status-level}
use qthreads.Prelude.{
  ℕ, ◌≡◌, ◌≢◌, refl, sym, subst, ◌∙◌, ap, false, ◌&&◌, Option, some, [], on_some, on_false, arith,
}

-- A word that is empty, with its waiters, in the state `s`.
pub record IsEmptyAt (dest : ℕ) (m : AddrStat) (s : Feb) : Type 0 where
  pub aligned : align dest ≡ dest
  pub entry : s.table (choose_stripe dest) dest ≡ some m
  pub is_empty : m.full ≡ false
  pub no_writers : m.efq ≡ []

-- What is seen after a call: its status, the word, the readers' copies and the word's state.
pub record Delivered (dest v : ℕ) (m : AddrStat) (r : Feb × Status) : Type 0 where
  pub returns : r.1 ≡ success
  pub word : r.0.mem dest ≡ v
  pub readers : AllGot v r.0.mem m.ffq
  pub taker : HeadGot v r.0.mem m.feq
  pub state : feb_status dest r.0 ≡ is_nil m.feq

pub put_same : (bin key : ℕ) (e : Option AddrStat) (s : Feb) → (put bin key e s).table bin key ≡ e
put_same bin key e s = ground arith

pub gotlock_fill-Delivered :
    (shep dest v : ℕ) (m : AddrStat) (s t : Feb)
    → IsEmptyAt dest m s
    → t.mem dest ≡ v
    → Delivered dest v m (gotlock_fill (choose_stripe dest) shep dest m t, success)
unfolding gotlock_fill
gotlock_fill-Delivered shep dest v m s t at h =
    let l : Locked = record { feb = t; m = m; precond_tasks = [] } in
    let d = fill_inner-Delivers shep dest v l at.no_writers h in
    let after = fill_inner (rounds m) shep dest l in
    let bin = choose_stripe dest in
    let same =
      release-SameWords (choose_stripe dest) shep dest
        (is_nil after.m.efq && (is_nil after.m.feq && after.m.full)) after in
    record {
      returns = refl;
      word = ap (λ (f : ℕ → ℕ). f dest) same.mem ∙ d.word;
      readers = subst (λ (f : ℕ → ℕ). AllGot v f m.ffq) (sym same.mem) d.readers;
      taker = subst (λ (f : ℕ → ℕ). HeadGot v f m.feq) (sym same.mem) d.taker;
      state =
          feb_status-level dest _
          ∙ ap (λ a. level ((gotlock_fill bin shep dest m t).table bin a)) at.aligned
          ∙ same.levels bin dest
          ∙ ap level (put_same bin dest (some after.m) after.feb)
          ∙ d.state;
    }

module _ (me dest src : ℕ) (m : AddrStat) (s : Feb) (at : IsEmptyAt dest m s) where
  entry : s.table (choose_stripe dest) (align dest) ≡ some m
  entry = ap (s.table (choose_stripe dest)) at.aligned ∙ at.entry

  -- The lookup of the aligned address, and the work on it.
  abbrev Seen : ℕ → Feb × Status → Type 0
  Seen v r = Delivered dest v m r

  locked :
      (shep v : ℕ) (t : Feb)
      → t.mem dest ≡ v
      → Seen v (gotlock_fill (choose_stripe dest) shep (align dest) m t, success)
  locked shep v t h =
      subst (λ a. Seen v (gotlock_fill (choose_stripe dest) shep a m t, success)) (sym at.aligned)
        (gotlock_fill-Delivered shep dest v m s t at h)

  -- `qthread_fill` of an aligned, empty word succeeds and delivers the word as it stands.
  pub fill-Delivered : Delivered dest (s.mem dest) m (fill me dest s)
  unfolding fill
  fill-Delivered = on_some (Seen (s.mem dest)) _ _ entry (locked me (s.mem dest) s refl)

  module _ (nz : dest ≢ 0) where
    written : copy_word dest src s.mem dest ≡ s.mem src
    written = copy_word-dest dest src s.mem nz

    -- `qthread_writeF` of an aligned, empty word that is not at the null address succeeds: the value stands
    -- in the word, each reader in the FFQ and the first taker in the FEQ have got it where they asked
    -- for a copy, and the word ends full exactly when nobody waited in the FEQ.
    pub write_f-Delivered : Delivered dest (s.mem src) m (write_f me dest src s)
    unfolding write_f
    write_f-Delivered = on_some (Seen (s.mem src)) _ _ entry (locked me (s.mem src) _ written)

    -- `qthread_writeEF` of an aligned, empty word that is not at the null address succeeds: the value stands
    -- in the word, each reader in the FFQ and the first taker in the FEQ have got it where they asked
    -- for a copy, and the word ends full exactly when nobody waited in the FEQ.
    pub write_ef-Delivered :
        (pools : Pools) → Delivered dest (s.mem src) m (write_ef pools me dest src s)
    unfolding write_ef write_ef_locked
    write_ef-Delivered pools =
        on_some (Seen (s.mem src)) _ _ entry
          (on_false (Seen (s.mem src)) _ at.is_empty (locked _ (s.mem src) _ written))

    -- `qthread_writeEF_nb` of an aligned, empty word that is not at the null address succeeds: the value stands
    -- in the word, each reader in the FFQ and the first taker in the FEQ have got it where they asked
    -- for a copy, and the word ends full exactly when nobody waited in the FEQ.
    pub write_ef_nb-Delivered : Delivered dest (s.mem src) m (write_ef_nb me dest src s)
    unfolding write_ef_nb
    write_ef_nb-Delivered =
        on_some (Seen (s.mem src)) _ _ entry
          (on_false (Seen (s.mem src)) _ at.is_empty (locked _ (s.mem src) _ written))
