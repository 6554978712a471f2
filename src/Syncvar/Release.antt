-- ===== src/Syncvar/Release.antt =====
-- Whom a write to a variable of src/syncvar.c wakes.
use qthreads.Feb.State.{AddrRes, AddrStat, is_nil}
use qthreads.Syncvar.Word.{held_of, build, state_of, value_of}
use qthreads.Syncvar.State.{Var, Outcome, success, asserted, unlock, hold, sync_schedule, put_back}
use qthreads.Syncvar.Lock.{
  wake_reader, wake_readers, var_fill, filled_state, release_waiters, entry_of,
}
use qthreads.Syncvar.Layout.{state_of-build}
use qthreads.Syncvar.Invariant.{Fits, IsValid, wake_readers-same}
use qthreads.Syncvar.Moves.{idle-nil}
use qthreads.Syncvar.Keeps.{try_empty, has_waiters, has_none}
use qthreads.Syncvar.Ops.{initial_timeout, shepherd_of, too_big, write_held, var_write_ef}
use mathlib.Core.List.{append_assoc, append-nil}
use qthreads.Prelude.{
  ℕ, ◌/◌, ◌^◌, ◌≤◌, ◌<◌, ◌≡◌, ◌↔◌, refl, sym, ◌∙◌, ap, subst, not, ◌&&◌, Option, none, some, List,
  [], ◌∷◌, ◌++◌, map, ◌==◌, if◌then◌else◌, on_true, on_false, list_both, if_both, arith,
}

-- The threads that were made ready, in order.
abbrev pub woken : Var → List ℕ
woken v = map (λ (p : ℕ × ℕ). p.1) v.ready

abbrev pub waiters_of : List AddrRes → List ℕ
waiters_of q = map (λ (x : AddrRes). x.waiter) q

abbrev pub first_of : List AddrRes → List AddrRes
first_of [] = []
first_of (x ∷ q) = x ∷ []

map-snoc :
    (l : List (ℕ × ℕ)) (p : ℕ × ℕ)
    → map (λ (p : ℕ × ℕ). p.1) (l ++ p ∷ []) ≡ map (λ (p : ℕ × ℕ). p.1) l ++ p.1 ∷ []
map-snoc [] p = refl
map-snoc (x ∷ l) p = ap (λ r. x.1 ∷ r) (map-snoc l p)

wake_reader-woken :
    (shep ret : ℕ) (x : AddrRes) (v : Var)
    → woken (wake_reader shep ret x v) ≡ woken v ++ x.waiter ∷ []
unfolding wake_reader sync_schedule
wake_reader-woken shep ret x v = map-snoc v.ready _

wake_readers-woken :
    (shep ret : ℕ) (q : List AddrRes) (v : Var)
    → woken (wake_readers shep ret q v) ≡ woken v ++ waiters_of q
unfolding wake_readers
wake_readers-woken shep ret [] v = sym (append-nil (woken v))
wake_readers-woken shep ret (x ∷ q) v =
    wake_readers-woken shep ret q (wake_reader shep ret x v)
    ∙ ap (λ l. l ++ waiters_of q) (wake_reader-woken shep ret x v)
    ∙ append_assoc (woken v) (x.waiter ∷ []) (waiters_of q)

var_fill-woken :
    (shep ret : ℕ) (m : AddrStat) (v : Var)
    → woken (var_fill shep m ret v) ≡ woken v ++ waiters_of m.ffq ++ waiters_of (first_of m.feq)
unfolding var_fill put_back
var_fill-woken shep ret m v =
    list_both (λ (r : Var) l. woken r ≡ woken v ++ waiters_of m.ffq ++ waiters_of (first_of l))
      m.feq
      (λ f. wake_readers-woken shep ret m.ffq v ∙ sym (append-nil (woken v ++ waiters_of m.ffq)))
      (λ x q f.
        wake_reader-woken shep ret x (wake_readers shep ret m.ffq v)
        ∙ ap (λ l. l ++ x.waiter ∷ []) (wake_readers-woken shep ret m.ffq v))

var_fill-word : (shep ret : ℕ) (m : AddrStat) (v : Var) → (var_fill shep m ret v).word ≡ v.word
unfolding var_fill put_back wake_reader sync_schedule
var_fill-word shep ret m v =
    let same = (wake_readers-same shep ret m.ffq v).0 in
    list_both (λ (r : Var) l. r.word ≡ v.word) m.feq (λ f. same) (λ x q f. same)

filled_state_iff : (m : AddrStat) → (filled_state m < 4) × ((filled_state m < 2) ↔ (m.feq ≡ []))
unfolding filled_state
filled_state_iff m =
    list_both (λ n l. (n < 4) × ((n < 2) ↔ (l ≡ []))) m.feq
      (λ f. (omega arith, (λ h. refl, λ h. omega arith)))
      (λ x q f.
        if_both (λ n. (n < 4) × ((n < 2) ↔ (x ∷ q ≡ []))) (is_nil q)
          (λ t. (omega arith, (λ h. absurd (omega arith), λ h. cc)))
          (λ t. (omega arith, (λ h. absurd (omega arith), λ h. cc))))

-- What a write of a value to an empty variable does: it wakes all readers and the first taker, in
-- that order; the variable ends full exactly if no taker waited, with the value in it.
abbrev pub Released : ℕ → Var → Var × Outcome → Type 0
Released val v r =
    (r.1 ≡ success)
    × (woken r.0
        ≡ woken v
          ++ waiters_of (entry_of v.entry).ffq
          ++ waiters_of (first_of (entry_of v.entry).feq))
    × ((state_of r.0.word < 2) ↔ ((entry_of v.entry).feq ≡ []))
    × (value_of r.0.word ≡ val)

value_of-built : (val state : ℕ) → val < 2 ^ 60 → state < 4 → value_of (build val state) ≡ val
unfolding value_of build
value_of-built val state h k = omega arith

release_waiters-Released :
    (shep val : ℕ) (v : Var)
    → val < 2 ^ 60
    → Fits v.addr 3 (entry_of v.entry)
    → Released val v (release_waiters shep val (hold v))
unfolding release_waiters
release_waiters-Released shep val v small f = option_both' v.entry refl
  where
    option_both' :
        (o : Option AddrStat)
        → v.entry ≡ o
        → Released val v (elim o [
          | none ↦ (hold v, asserted)
          | some m ↦
              if is_nil m.efq && not (is_nil m.ffq && is_nil m.feq)
              then (var_fill shep m val (unlock val (filled_state m) (hold v)), success)
              else (unlock val (filled_state m) (hold v), asserted)
        ])
    option_both' none e =
        absurd (let w = (subst (λ o. Fits v.addr 3 (entry_of o)) e f).waiters in cc)
    option_both' (some m) e =
        let g = subst (λ o. Fits v.addr 3 (entry_of o)) e f in
        let q = g.no_writer (omega arith) in
        let w = g.waiters in
        let u = unlock val (filled_state m) (hold v) in
        let word = var_fill-word shep val m u in
        let fs = filled_state_iff m in
        let st = ap state_of word ∙ state_of-build val (filled_state m) fs.0 in
        on_true (Released val v) {b = is_nil m.efq && not (is_nil m.ffq && is_nil m.feq)}
          (u, asserted) (grind (arith, q, w))
          (subst (λ o. Released val (record v { entry = o }) (var_fill shep m val u, success))
            (sym e)
            (
              refl,
              var_fill-woken shep val m u,
              (
                (λ h. fs.1.0 (subst (λ k. k < 2) st h)),
                (λ h. subst (λ k. k < 2) (sym st) (fs.1.1 h)),
              ),
              ap value_of word ∙ value_of-built val (filled_state m) small fs.0,
            ))

write_held-Released :
    (shep val : ℕ) (v : Var)
    → IsValid v
    → val < 2 ^ 60
    → 2 ≤ state_of v.word
    → Released val v (write_held shep val (held_of v.word) (hold v))
unfolding write_held
write_held-Released shep val v i small h =
    if_both (Released val v) (held_of v.word).sf
      (λ t. release_waiters-Released shep val v small (
        subst (λ k. Fits v.addr k (entry_of v.entry))
          (omega (arith, has_waiters v i t, i.fits.known)) i.fits))
      (λ t.
        let even = has_none v i t in
        let idle = i.fits.waiters ∙ ground (arith, even) in
        let (e, f, g) = idle-nil (entry_of v.entry) idle in
        (
          refl,
          sym (rw (f, g) (append-nil (woken v ++ []) ∙ append-nil (woken v))),
          ((λ k. f), (λ k. rw (state_of-build val 0 (omega arith)) (omega arith))),
          value_of-built val 0 small (omega arith),
        ))

-- On an empty variable whose state agrees with its queues, a `qthread_syncvar_writeEF` of a value of
-- less than 60 bits succeeds: it wakes all waiting readers and then the first waiting taker, and no
-- one else; the variable ends full exactly if no taker waited, and with the value in it.
pub write_ef-Released :
    (me src : ℕ) (v : Var)
    → IsValid v
    → v.mem src < 2 ^ 60
    → 2 ≤ state_of v.word
    → Released (v.mem src) v (var_write_ef me src v)
unfolding var_write_ef too_big
write_ef-Released me src v i small h =
    on_false (Released (v.mem src) v) {b = not (v.mem src / 2 ^ 60 == 0)} (v, asserted)
      (ground arith)
      (try_empty v i (Released (v.mem src) v) initial_timeout _ _ (λ k. absurd (omega arith))
        (λ k. write_held-Released (shepherd_of me v) (v.mem src) v i small h))
