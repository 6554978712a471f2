-- ===== src/Feb/Level.antt =====
-- After the lock is released nothing changes the user's memory or the state of any word.
use qthreads.Feb.State.{AddrRes, AddrStat, Feb, align, choose_stripe, put, is_nil, feb_status}
use qthreads.Feb.Lock.{
  Locked, feb_remove, check_preconds, check_feb_preconds, precond_launch, release,
}
use qthreads.Prelude.{
  ℕ, ◌≡◌, refl, ◌∙◌, Bool, true, ◌&&◌, Option, none, some, List, [], ◌∷◌, if_both, option_both,
  arith,
}

-- A word without an entry is full.
abbrev pub level : Option AddrStat → Bool
level none = true
level (some m) = m.full

-- The same memory, and every word full or empty as before.
pub record SameWords (s t : Feb) : Type 0 where
  pub mem : t.mem ≡ s.mem
  pub levels : (bin key : ℕ) → level (t.table bin key) ≡ level (s.table bin key)

pub same_words : (s : Feb) → SameWords s s
same_words s = record { mem = refl; levels = λ bin key. refl }

pub SameWords-trans : {s t u : Feb} → SameWords s t → SameWords t u → SameWords s u
SameWords-trans a b = record {
  mem = b.mem ∙ a.mem;
  levels = λ bin key. b.levels bin key ∙ a.levels bin key;
}

put-SameWords :
    (bin key : ℕ) (e : Option AddrStat) (s : Feb)
    → level e ≡ level (s.table bin key)
    → SameWords s (put bin key e s)
put-SameWords bin key e s h = record { mem = refl; levels = λ b k. ground arith }

feb_remove-SameWords : (maddr : ℕ) (s : Feb) → SameWords s (feb_remove maddr s)
unfolding feb_remove
feb_remove-SameWords maddr s =
    option_both (SameWords s) (s.table (choose_stripe maddr) maddr) (λ e. same_words s)
      (λ m e.
        if_both (SameWords s) (is_nil m.feq && (is_nil m.efq && (is_nil m.ffq && m.full)))
          (λ t. put-SameWords (choose_stripe maddr) maddr none s (rw e (ground arith)))
          (λ t. same_words s))

check_preconds-SameWords : (t : ℕ) (ps : List ℕ) (s : Feb) → SameWords s (check_preconds t ps s).0
unfolding check_preconds
check_preconds-SameWords t [] s = record { mem = refl; levels = λ bin key. refl }
check_preconds-SameWords t (p ∷ ps) s =
    let rest = check_preconds-SameWords t ps s in
    option_both (λ (r : Feb × Bool). SameWords s r.0) (s.table (choose_stripe p) (align p))
      (λ e. rest)
      (λ m e.
        if_both (λ (r : Feb × Bool). SameWords s r.0) m.full (λ f. rest)
          (λ f.
            let w =
              put-SameWords (choose_stripe p) (align p)
                (some (record m { ffq = record { addr = 0; waiter = t } ∷ m.ffq })) s (rw e refl) in
            record { mem = refl; levels = w.levels }))

pub precond_launch-SameWords :
    (shep : ℕ) (xs : List AddrRes) (s : Feb) → SameWords s (precond_launch shep xs s)
unfolding precond_launch check_feb_preconds
precond_launch-SameWords shep [] s = same_words s
precond_launch-SameWords shep (x ∷ xs) s =
    let r = check_preconds-SameWords x.waiter (s.threads x.waiter).preconds s in
    SameWords-trans r (
      SameWords-trans
        (if_both (SameWords (check_feb_preconds x.waiter s).0) (check_feb_preconds x.waiter s).1
          (λ w. same_words _) (λ w. record { mem = refl; levels = λ bin key. refl }))
        (precond_launch-SameWords shep xs _))

pub release-SameWords :
    (bin shep maddr : ℕ) (b : Bool) (l : Locked)
    → SameWords (put bin maddr (some l.m) l.feb) (release bin shep maddr b l)
unfolding release
release-SameWords bin shep maddr b l =
    let start = put bin maddr (some l.m) l.feb in
    let launched = precond_launch-SameWords shep l.precond_tasks start in
    if_both (SameWords start) b (λ t. SameWords-trans launched (feb_remove-SameWords maddr _))
      (λ t. launched)

pub feb_status-level :
    (addr : ℕ) (s : Feb) → feb_status addr s ≡ level (s.table (choose_stripe addr) (align addr))
unfolding feb_status
feb_status-level addr s =
    option_both (λ b. b ≡ level (s.table (choose_stripe addr) (align addr)))
      (s.table (choose_stripe addr) (align addr)) (λ e. rw e) (λ m e. rw e)
