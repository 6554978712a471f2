-- ===== src/Syncvar/Moves.antt =====
-- How the queues of a variable of src/syncvar.c fit a new state of its word.
use qthreads.Feb.State.{AddrRes, AddrStat, is_nil}
use qthreads.Syncvar.State.{Var, Outcome, timeout, asserted, is_idle, unlock}
use qthreads.Syncvar.Lock.{release_waiters, release_writer, filled_state, entry_of}
use qthreads.Syncvar.Invariant.{AllApart, Fits, IsValid, var_fill-IsValid, var_empty-IsValid}
use qthreads.Prelude.{
  ℕ, ◌%◌, ◌≤◌, ◌<◌, ◌≡◌, ◌≢◌, refl, ◌∙◌, subst, Bool, true, false, not, ◌&&◌, [], ◌∷◌, on_true,
  option_both, list_both, arith,
}

-- No call ends by a failed assertion or a timeout.
abbrev pub is_fine : Outcome → Bool
is_fine timeout = false
is_fine asserted = false
is_fine _ = true

-- What every call keeps.
abbrev pub Kept : Var × Outcome → Type 0
Kept r = IsValid r.0 × (is_fine r.1 ≡ true)

-- No one waits.
pub idle-nil : (m : AddrStat) → is_idle m ≡ true → (m.efq ≡ []) × (m.feq ≡ []) × (m.ffq ≡ [])
idle-nil m h = grind arith

pub idle-either :
    (a state : ℕ) (m : AddrStat) → Fits a state m → state % 2 ≡ 0 → Fits a 0 m × Fits a 2 m
idle-either a state m f even =
    let t : is_idle m ≡ true = f.waiters ∙ (ground (arith, even)) in
    let (e, g, h) = idle-nil m t in
    (
      record {
        known = omega arith;
        no_reader = λ k. (g, h);
        no_writer = λ k. e;
        waiters = t;
        apart = f.apart;
      },
      record {
        known = omega arith;
        no_reader = λ k. (g, h);
        no_writer = λ k. e;
        waiters = t;
        apart = f.apart;
      },
    )

-- A reader or a taker joins an empty variable, a writer a full one.
pub joined_ffq-Fits :
    (a state : ℕ) (m : AddrStat) (x : AddrRes)
    → 2 ≤ state
    → Fits a state m
    → Fits a 3 (record m { ffq = x ∷ m.ffq })
joined_ffq-Fits a state m x h f = record {
  known = omega arith;
  no_reader = λ k. absurd (omega arith);
  no_writer = λ k. f.no_writer h;
  waiters = rw (f.no_writer h) (grind arith);
  apart = f.apart;
}

pub joined_feq-Fits :
    (a state : ℕ) (m : AddrStat) (x : AddrRes)
    → 2 ≤ state
    → Fits a state m
    → Fits a 3 (record m { feq = x ∷ m.feq })
joined_feq-Fits a state m x h f = record {
  known = omega arith;
  no_reader = λ k. absurd (omega arith);
  no_writer = λ k. f.no_writer h;
  waiters = rw (f.no_writer h) refl;
  apart = f.apart;
}

pub joined_efq-Fits :
    (a state : ℕ) (m : AddrStat) (x : AddrRes)
    → state < 2
    → a ≢ x.addr
    → Fits a state m
    → Fits a 1 (record m { efq = x ∷ m.efq })
joined_efq-Fits a state m x h apart f = record {
  known = omega arith;
  no_reader = λ k. f.no_reader h;
  no_writer = λ k. absurd (omega arith);
  waiters = refl;
  apart = (apart, f.apart);
}

pub release_waiters-Kept :
    (shep val : ℕ) (v : Var) → Fits v.addr 3 (entry_of v.entry) → Kept (release_waiters shep val v)
unfolding release_waiters
release_waiters-Kept shep val v f =
    option_both Kept v.entry
      (λ e. absurd (let w = (subst (λ o. Fits v.addr 3 (entry_of o)) e f).waiters in cc))
      (λ m e.
        let g = subst (λ o. Fits v.addr 3 (entry_of o)) e f in
        let q = g.no_writer (omega arith) in
        let w = g.waiters in
        on_true Kept {b = is_nil m.efq && not (is_nil m.ffq && is_nil m.feq)}
          (unlock val (filled_state m) v, asserted) (grind (arith, q, w))
          (var_fill-IsValid shep val val m (unlock val (filled_state m) v) q refl, refl))

pub release_writer-Kept :
    (shep : ℕ) (v : Var) → Fits v.addr 1 (entry_of v.entry) → Kept (release_writer shep v)
unfolding release_writer
release_writer-Kept shep v f =
    option_both Kept v.entry
      (λ e. absurd (let w = (subst (λ o. Fits v.addr 1 (entry_of o)) e f).waiters in cc))
      (λ m e.
        let g = subst (λ o. Fits v.addr 1 (entry_of o)) e f in
        let (ne, nf) = g.no_reader (omega arith) in
        let w = g.waiters in
        list_both (λ r l. Kept r) m.efq
          (λ l. absurd (let b : is_idle m ≡ true = rw (l, ne, nf) refl in cc))
          (λ x q l.
            on_true Kept {b = is_nil m.ffq && is_nil m.feq} (v, asserted) (rw (ne, nf) refl)
              (var_empty-IsValid shep m v x q l ne nf (subst (AllApart v.addr) l g.apart), refl)))
