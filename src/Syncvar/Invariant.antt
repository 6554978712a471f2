-- ===== src/Syncvar/Invariant.antt =====
-- The invariant of a variable of src/syncvar.c: the state in the word agrees with the queues.
use qthreads.Feb.State.{AddrRes, AddrStat, is_nil}
use qthreads.Syncvar.Word.{build, lock_of, state_of}
use qthreads.Syncvar.State.{Var, is_idle, sync_schedule, unlock, put_back}
use qthreads.Syncvar.Lock.{wake_reader, wake_readers, var_fill, var_empty, filled_state, entry_of}
use qthreads.Syncvar.Layout.{build-IsFree, state_of-build}
use qthreads.Prelude.{
  ℕ, ◌%◌, ◌≤◌, ◌<◌, ◌≡◌, ◌≢◌, refl, sym, ◌∙◌, ap, subst, true, false, not, Option, none, some, List,
  [], ◌∷◌, ◌==◌, if◌then◌else◌, on_false, if_both, list_both, list_cons, arith,
}

-- No waiting writer has the variable itself as its source.
abbrev pub AllApart : ℕ → List AddrRes → Type 0
AllApart a [] = Unit {0}
AllApart a (x ∷ q) = (a ≢ x.addr) × AllApart a q

-- A full variable has no readers or takers waiting, an empty one no writers, and the lowest bit of
-- the state says whether anyone waits.
pub record Fits (addr state : ℕ) (m : AddrStat) : Type 0 where
  pub known : state < 4
  pub no_reader : state < 2 → (m.feq ≡ []) × (m.ffq ≡ [])
  pub no_writer : 2 ≤ state → m.efq ≡ []
  pub waiters : is_idle m ≡ not (state % 2 == 1)
  pub apart : AllApart addr m.efq

pub record IsValid (v : Var) : Type 0 where
  pub unlocked : lock_of v.word ≡ 0
  pub fits : Fits v.addr (state_of v.word) (entry_of v.entry)

pub built-IsValid :
    (v : Var) (val state : ℕ)
    → v.word ≡ build val state
    → Fits v.addr state (entry_of v.entry)
    → IsValid v
built-IsValid v val state e f = record {
  unlocked = ap lock_of e ∙ (build-IsFree val state f.known).unlocked;
  fits =
      subst (λ k. Fits v.addr k (entry_of v.entry))
        (sym (ap state_of e ∙ state_of-build val state f.known)) f;
}

idle-Fits :
    (a state : ℕ) (m : AddrStat)
    → Fits a state m
    → Fits a state (entry_of (if is_idle m then none else some m))
idle-Fits a state m f =
    if_both (λ (o : Option AddrStat). Fits a state (entry_of o)) (is_idle m)
      (λ t. record {
        known = f.known;
        no_reader = λ h. (refl, refl);
        no_writer = λ h. refl;
        waiters = sym t ∙ f.waiters;
        apart = tt;
      })
      (λ t. f)

pub wake_readers-same :
    (shep ret : ℕ) (q : List AddrRes) (v : Var)
    → ((wake_readers shep ret q v).word ≡ v.word) × ((wake_readers shep ret q v).addr ≡ v.addr)
unfolding wake_readers wake_reader sync_schedule
wake_readers-same shep ret [] v = (refl, refl)
wake_readers-same shep ret (x ∷ q) v = wake_readers-same shep ret q (wake_reader shep ret x v)

put_back-IsValid :
    (m : AddrStat) (v : Var) (val state : ℕ)
    → v.word ≡ build val state
    → Fits v.addr state m
    → IsValid (put_back m v)
unfolding put_back
put_back-IsValid m v val state e f =
    built-IsValid (put_back m v) val state e (idle-Fits v.addr state m f)

taker_left : (q : List AddrRes) → (if is_nil q then 2 else 3) % 2 ≡ (if is_nil q then 0 else 1)
taker_left [] = refl
taker_left (x ∷ q) = refl

-- The queues that a fill leaves.
filled-Fits :
    (a : ℕ) (m : AddrStat) → m.efq ≡ [] → m.feq ≡ [] → Fits a 0 (record m { full = true; ffq = [] })
filled-Fits a m e f = record {
  known = omega arith;
  no_reader = λ h. (f, refl);
  no_writer = λ h. e;
  waiters = rw (e, f) refl;
  apart = rw e tt;
}

handed-Fits :
    (a : ℕ) (m : AddrStat) (q : List AddrRes)
    → m.efq ≡ []
    → Fits a (if is_nil q then 2 else 3) (record m { full = true; ffq = []; feq = q })
handed-Fits a m [] e = record {
  known = omega arith;
  no_reader = λ h. absurd (omega arith);
  no_writer = λ h. e;
  waiters = rw e refl;
  apart = rw e tt;
}
handed-Fits a m (x ∷ q) e = record {
  known = omega arith;
  no_reader = λ h. absurd (omega arith);
  no_writer = λ h. e;
  waiters = rw e refl;
  apart = rw e tt;
}

-- After the wake-ups of a fill, when no writer waited.
pub var_fill-IsValid :
    (shep ret val : ℕ) (m : AddrStat) (v : Var)
    → m.efq ≡ []
    → v.word ≡ build val (filled_state m)
    → IsValid (var_fill shep m ret v)
unfolding var_fill filled_state wake_reader sync_schedule
var_fill-IsValid shep ret val m v e w =
    let t = wake_readers shep ret m.ffq v in
    let same = (wake_readers-same shep ret m.ffq v).0 in
    let state : List AddrRes → ℕ = λ l. elim l [ [] ↦ 0 | x ∷ q ↦ if is_nil q then 2 else 3 ] in
    list_both (λ (r : Var) l. IsValid r) m.feq
      (λ f.
        put_back-IsValid (record m { full = true; ffq = [] }) t val 0
          (same ∙ w ∙ ap (λ l. build val (state l)) f) (filled-Fits t.addr m e f))
      (λ x q f.
        put_back-IsValid (record m { full = true; ffq = []; feq = q }) (wake_reader shep ret x t)
          val (if is_nil q then 2 else 3) (same ∙ w ∙ ap (λ l. build val (state l)) f)
          (handed-Fits t.addr m q e))

-- The queues that the hand-over to a writer leaves.
written-Fits :
    (a : ℕ) (m : AddrStat) (q : List AddrRes)
    → m.feq ≡ []
    → m.ffq ≡ []
    → AllApart a q
    → Fits a (if is_nil q then 0 else 1) (record m { full = false; efq = q })
written-Fits a m [] f g apart = record {
  known = omega arith;
  no_reader = λ h. (f, g);
  no_writer = λ h. refl;
  waiters = rw (f, g) refl;
  apart = apart;
}
written-Fits a m (x ∷ q) f g apart = record {
  known = omega arith;
  no_reader = λ h. (f, g);
  no_writer = λ h. absurd (omega arith);
  waiters = refl;
  apart = apart;
}

-- After the hand-over to the first waiting writer, when no one waited for a full word.
pub var_empty-IsValid :
    (shep : ℕ) (m : AddrStat) (v : Var) (x : AddrRes) (q : List AddrRes)
    → m.efq ≡ x ∷ q
    → m.feq ≡ []
    → m.ffq ≡ []
    → AllApart v.addr (x ∷ q)
    → IsValid (var_empty shep m (if is_nil q then 0 else 1) v)
unfolding var_empty sync_schedule
var_empty-IsValid shep m v x q e f g (apart, rest) =
    let state : ℕ = if is_nil q then 0 else 1 in
    let left = record m { full = false; efq = q } in
    let woken : Var → Var = λ r. put_back left (sync_schedule x.waiter shep r) in
    list_cons (λ (r : Var). IsValid r) _
      (λ y l.
        put_back (record m { full = false; efq = l })
          (sync_schedule y.waiter shep
            (if v.addr == y.addr then v else unlock (v.mem y.addr) state v)))
      e
      (on_false (λ (r : Var). IsValid (woken r)) {b = v.addr == x.addr} v (ground (arith, apart))
        (put_back-IsValid left (sync_schedule x.waiter shep (unlock (v.mem x.addr) state v))
          (v.mem x.addr) state refl (written-Fits v.addr m q f g rest)))
