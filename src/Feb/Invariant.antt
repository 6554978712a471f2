-- ===== src/Feb/Invariant.antt =====
-- The invariant of the table: no word keeps a waiter that its state would let go on.
pub mod Ops
use qthreads.Feb.State.{
  AddrRes, AddrStat, addrstat_new, Feb, Status, align, choose_stripe, put, is_nil, copy_word,
  set_state, enqueue,
}
use qthreads.Feb.Lock.{
  Locked, fill_inner, empty_inner, rounds, feb_remove, check_preconds, check_feb_preconds,
  launch_shepherd, precond_launch, release, gotlock_fill, gotlock_empty,
}
use qthreads.Feb.Ops.{
  Pools, empty, fill, write_f, write_ef_locked, write_ef, write_ef_nb, read_ff, read_ff_nb,
  read_fe_locked, read_fe, read_fe_nb_locked, read_fe_nb,
}
use qthreads.Feb.Cascade.{IsSettled, fill_settles, empty_settles}
use qthreads.Feb.Cascade.Keeps.{fill-table, empty-table}
use qthreads.Prelude.{
  ℕ, zero, suc, ◌+◌, ◌<◌, ◌≡◌, refl, sym, subst, Bool, true, false, ◌&&◌, Option, none, some, List,
  [], ◌∷◌, ◌==◌, if◌then◌else◌, update, inl, inr, some_inj, if_both, option_both, Bool-cases,
  Option-cases, arith,
}

abbrev pub IsSettledAt : (ℕ → ℕ → Option AddrStat) → Type 0
IsSettledAt tab = (bin key : ℕ) (m : AddrStat) → tab bin key ≡ some m → IsSettled m

abbrev pub IsValid : Feb → Type 0
IsValid s = IsSettledAt s.table

pub new-IsSettled : IsSettled addrstat_new
new-IsSettled = record { no_reader = λ f. (refl, refl); no_writer = λ f. refl }

pub put-IsValid :
    (bin key : ℕ) (m : AddrStat) (s : Feb)
    → IsSettled m
    → IsValid s
    → IsValid (put bin key (some m) s)
put-IsValid bin key m s h v b k n e = elim (Bool-cases (b == bin && k == key)) [
  | inl hit ↦ let e' : some m ≡ some n = rw hit at e in subst IsSettled (some_inj e') h
  | inr miss ↦ v b k n (rw miss at e)
]

put-none-IsValid : (bin key : ℕ) (s : Feb) → IsValid s → IsValid (put bin key none s)
put-none-IsValid bin key s v b k n e = elim (Bool-cases (b == bin && k == key)) [
  | inl hit ↦ let e' : none ≡ some n = rw hit at e in cc
  | inr miss ↦ v b k n (rw miss at e)
]

feb_remove-IsValid : (maddr : ℕ) (s : Feb) → IsValid s → IsValid (feb_remove maddr s)
unfolding feb_remove
feb_remove-IsValid maddr s v = elim (Option-cases (s.table (choose_stripe maddr) maddr)) [
  | inl e ↦ rw (e, feb_remove) v
  | inr (m, e) ↦ elim (Bool-cases (is_nil m.feq && (is_nil m.efq && (is_nil m.ffq && m.full)))) [
    | inl t ↦ rw (e, feb_remove, t) (put-none-IsValid (choose_stripe maddr) maddr s v)
    | inr t ↦ rw (e, feb_remove, t) v
  ]
]

check_preconds-IsValid :
    (t : ℕ) (ps : List ℕ) (s : Feb) → IsValid s → IsValid (check_preconds t ps s).0
unfolding check_preconds
check_preconds-IsValid t [] s v = v
check_preconds-IsValid t (p ∷ ps) s v = elim (Option-cases (s.table (choose_stripe p) (align p))) [
  | inl e ↦ rw (e, check_preconds) (check_preconds-IsValid t ps s v)
  | inr (m, e) ↦ elim (Bool-cases m.full) [
    | inl f ↦ rw (e, check_preconds, f) (check_preconds-IsValid t ps s v)
    | inr f ↦
        rw (e, check_preconds, f)
          (put-IsValid (choose_stripe p) (align p) _ s
            (record { no_reader = λ g. cc; no_writer = λ g. (v _ _ m e).no_writer f }) v)
  ]
]

precond_launch-IsValid :
    (shep : ℕ) (xs : List AddrRes) (s : Feb) → IsValid s → IsValid (precond_launch shep xs s)
unfolding precond_launch check_feb_preconds
precond_launch-IsValid shep [] s v = v
precond_launch-IsValid shep (x ∷ xs) s v =
    let r = check_preconds-IsValid x.waiter (s.threads x.waiter).preconds s v in
    elim (Bool-cases (check_feb_preconds x.waiter s).1) [
      | inl w ↦ rw (w, precond_launch) (precond_launch-IsValid shep xs _ r)
      | inr w ↦ rw (w, precond_launch) (precond_launch-IsValid shep xs _ r)
    ]

release-IsValid :
    (bin shep maddr : ℕ) (b : Bool) (l : Locked)
    → IsSettled l.m
    → IsValid l.feb
    → IsValid (release bin shep maddr b l)
unfolding release
release-IsValid bin shep maddr b l h v =
    let launched =
      precond_launch-IsValid shep l.precond_tasks _ (put-IsValid bin maddr l.m l.feb h v) in
    elim (Bool-cases b) [
      | inl t ↦ rw (t, release) (feb_remove-IsValid maddr _ launched)
      | inr t ↦ rw (t, release) launched
    ]

pub gotlock_fill-IsValid :
    (bin shep maddr : ℕ) (m : AddrStat) (s : Feb)
    → IsValid s
    → IsValid (gotlock_fill bin shep maddr m s)
unfolding gotlock_fill
gotlock_fill-IsValid bin shep maddr m s v =
    let l : Locked = record { feb = s; m = m; precond_tasks = [] } in
    release-IsValid bin shep maddr _ _ (fill_settles (rounds m) shep maddr l (omega arith))
      (subst IsSettledAt (sym (fill-table shep maddr s.table (rounds m) l refl)) v)

pub gotlock_empty-IsValid :
    (bin shep maddr : ℕ) (m : AddrStat) (s : Feb)
    → IsValid s
    → IsValid (gotlock_empty bin shep maddr m s)
unfolding gotlock_empty
gotlock_empty-IsValid bin shep maddr m s v =
    let l : Locked = record { feb = s; m = m; precond_tasks = [] } in
    release-IsValid bin shep maddr _ _ (empty_settles (rounds m) shep maddr l (omega arith))
      (subst IsSettledAt (sym (empty-table shep maddr s.table (rounds m) l refl)) v)
