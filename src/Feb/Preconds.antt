-- ===== src/Feb/Preconds.antt =====
-- `qthread_check_feb_preconds` of src/feb.c: a thread becomes new exactly when every word that it
-- depends on is full; otherwise it waits on the first empty one.
use qthreads.Feb.State.{AddrStat, Qthread, Feb, new, nascent, align, choose_stripe, put}
use qthreads.Feb.Lock.{check_preconds}
use qthreads.Feb.Level.{level}
use qthreads.Feb.Delivery.Calls.{put_same}
use qthreads.Prelude.{
  ℕ, ◌≡◌, refl, ◌∙◌, ap, Bool, true, false, some, List, [], ◌∷◌, if◌then◌else◌, update, update_same,
  on_true, on_false, if_both, option_both, subst, sym,
}

-- The level of a word, and the preconditions from the first empty word on.
abbrev pub full_at : ℕ → Feb → Bool
full_at p s = level (s.table (choose_stripe p) (align p))

abbrev pub pending : List ℕ → Feb → List ℕ
pending [] s = []
pending (p ∷ ps) s = let rest = pending ps s in if full_at p s then rest else p ∷ ps

-- How the check ends, for a thread whose pending preconditions are `ps`.
abbrev pub Ends : ℕ → List ℕ → Feb → Feb × Bool → Type 0
Ends t [] s r =
    (r.1 ≡ false)
    × ((r.0.threads t).thread_state ≡ new)
    × ((r.0.threads t).preconds ≡ [])
    × (r.0.table ≡ s.table)
Ends t (p ∷ ps) s r =
    (r.1 ≡ true)
    × ((r.0.threads t).thread_state ≡ nascent)
    × ((r.0.threads t).preconds ≡ p ∷ ps)
    × ((m : AddrStat) × (s.table (choose_stripe p) (align p) ≡ some m)
        × (r.0.table (choose_stripe p) (align p)
            ≡ some (record m { ffq = record { addr = 0; waiter = t } ∷ m.ffq })))

new_thread : (t : ℕ) (s : Feb) → Ends t [] s (check_preconds t [] s)
unfolding check_preconds
new_thread t s =
    let e = update_same s.threads t (record (s.threads t) { thread_state = new; preconds = [] }) in
    (refl, ap Qthread.thread_state e, ap Qthread.preconds e, refl)

-- A thread whose words are all full becomes new, and the table is left as it was. Otherwise the
-- check returns 1: the thread is nascent, keeps the preconditions from the first empty word on,
-- and stands at the head of that word's FFQ.
pub check_preconds-Ends :
    (t : ℕ) (ps : List ℕ) (s : Feb) → Ends t (pending ps s) s (check_preconds t ps s)
unfolding check_preconds
check_preconds-Ends t [] s = new_thread t s
check_preconds-Ends t (p ∷ ps) s =
    let rest = pending ps s in
    let bin = choose_stripe p in
    let a = align p in
    let skips : full_at p s ≡ true → pending (p ∷ ps) s ≡ rest =
      λ h. on_true (λ k. k ≡ rest) _ h refl in
    let ih = check_preconds-Ends t ps s in
    option_both (Ends t (pending (p ∷ ps) s) s) (s.table bin a)
      (λ e. subst (λ k. Ends t k s (check_preconds t ps s)) (sym (skips (ap level e))) ih)
      (λ m e.
        if_both (Ends t (pending (p ∷ ps) s) s) m.full
          (λ f. subst (λ k. Ends t k s (check_preconds t ps s)) (sym (skips (ap level e ∙ f))) ih)
          (λ f.
            let stops : pending (p ∷ ps) s ≡ p ∷ ps =
              on_false (λ k. k ≡ p ∷ ps) _ (ap level e ∙ f) refl in
            let w = record (s.threads t) { thread_state = nascent; preconds = p ∷ ps } in
            let u = update_same s.threads t w in
            let m' = record m { ffq = record { addr = 0; waiter = t } ∷ m.ffq } in
            let r : Feb × Bool =
              (put bin a (some m') (record s { threads = update s.threads t w }), true) in
            subst (λ k. Ends t k s r) (sym stops)
              (
                refl,
                ap Qthread.thread_state u,
                ap Qthread.preconds u,
                (m, e, put_same bin a (some m') s),
              )))
