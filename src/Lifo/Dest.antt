-- ===== src/Lifo/Dest.antt =====
-- The destinations that `qt_threadqueue_choose_dest` hands out one after another.
use native.Mathlib.Nat.{mod-lt, mod-eq_of_lt, mod-add-mod, mod_self}
use qthreads.Lifo.{incr_mod, choose_dest}
use qthreads.Prelude.{
  ℕ, zero, suc, ◌+◌, ◌*◌, ◌%◌, ◌^◌, ◌≤◌, ◌<◌, ◌≡◌, refl, sym, ◌∙◌, ap, ap₂, if_both, none, some,
  List, [], ◌∷◌, ltb, if◌then◌else◌, arith,
}

-- The destinations of calls by a shepherd whose counter stands at `sched`, and of calls from
-- outside.
abbrev pub from_shepherd : ℕ → ℕ → ℕ → List ℕ
from_shepherd n zero sched = []
from_shepherd n (suc calls) sched =
    let r = choose_dest n (some sched) 0 in
    r.0 ∷ elim r.1.0 [ none ↦ [] | some s ↦ from_shepherd n calls s ]

abbrev pub from_outside : ℕ → ℕ → ℕ → List ℕ
from_outside n zero sched = []
from_outside n (suc calls) sched =
    let r = choose_dest n none sched in r.0 ∷ from_outside n calls r.1.1

-- Round robin, from the shepherd `s` modulo their number.
abbrev pub in_turn : ℕ → ℕ → ℕ → List ℕ
in_turn n zero s = []
in_turn n (suc calls) s = s % n ∷ in_turn n calls (s + 1)

next_in_turn : (n s : ℕ) → 0 < n → (if ltb (s % n + 1) n then s % n + 1 else 0) ≡ (s + 1) % n
next_in_turn n s any =
    if_both (λ k. k ≡ (s + 1) % n) (ltb (s % n + 1) n)
      (λ t. sym (mod-eq_of_lt (ground arith)) ∙ mod-add-mod s n 1)
      (λ t.
        let r = mod-lt s any in
        let e : s % n + 1 ≡ n = ground (arith, r) in
        sym (mod_self n) ∙ ap (λ k. k % n) (sym e) ∙ mod-add-mod s n 1)

-- The counter after a call, when it was below the number of shepherds.
turn :
    (n s : ℕ)
    → s < n
    → n ≤ 2 ^ 16
    → (s + 1) % 2 ^ 64 * (if ltb (s + 1) n then 1 else 0) ≡ (if ltb (s + 1) n then s + 1 else 0)
turn n s h few =
    if_both (λ b. (s + 1) % 2 ^ 64 * b ≡ (if ltb (s + 1) n then s + 1 else 0)) (ltb (s + 1) n)
      (λ t. ground arith) (λ t. ground arith)

narrow_enough : (s : ℕ) → s < 2 ^ 16 → (s % 2 ^ 16 ≡ s) × ((s + 1) % 2 ^ 64 ≡ s + 1)
narrow_enough s h = (omega arith, omega arith)

-- With at least one shepherd and at most 2 ^ 16, calls of `qt_threadqueue_choose_dest` by one
-- shepherd, whose counter starts below their number, hand out the shepherds in turn.
pub from_shepherd-eq :
    (n calls s : ℕ) → 0 < n → n ≤ 2 ^ 16 → from_shepherd n calls (s % n) ≡ in_turn n calls s
unfolding choose_dest
from_shepherd-eq n zero s any few = refl
from_shepherd-eq n (suc calls) s any few =
    let h = mod-lt s any in
    let w = (narrow_enough (s % n) (omega (arith, h))).0 in
    ap₂ ◌∷◌ w (
      ap (from_shepherd n calls) (
        ap (λ d. (s % n + 1) % 2 ^ 64 * (if ltb (d + 1) n then 1 else 0)) w
        ∙ turn n (s % n) h few
        ∙ next_in_turn n s any)
      ∙ from_shepherd-eq n calls (s + 1) any few)

-- The same for calls from outside a shepherd, which share the counter of the library.
pub from_outside-eq :
    (n calls s : ℕ) → 0 < n → n ≤ 2 ^ 16 → from_outside n calls (s % n) ≡ in_turn n calls s
unfolding choose_dest incr_mod
from_outside-eq n zero s any few = refl
from_outside-eq n (suc calls) s any few =
    let h = mod-lt s any in
    let w = narrow_enough (s % n) (omega (arith, h)) in
    ap₂ ◌∷◌ w.0 (
      ap (from_outside n calls) (
        ap (λ d. (s % n + 1) % 2 ^ 64 * (if ltb d n then 1 else 0)) w.1
        ∙ turn n (s % n) h few
        ∙ next_in_turn n s any)
      ∙ from_outside-eq n calls (s + 1) any few)
