-- ===== src/Loop/Tree.antt =====
-- The tree by which the workers of `qloop_wrapper` in src/qloop.c spawn one another.
use native.Mathlib.Nat.{two-pow-succ, one-le-pow, mul-div_cancel_left}
use qthreads.Loop.{wrapper}
use qthreads.Prelude.{
  ℕ, zero, suc, ◌+◌, ◌-◌, ◌*◌, ◌/◌, ◌^◌, ◌≤◌, ◌<◌, ◌≡◌, ◌≢◌, refl, sym, subst, ◌∙◌, ap, List, leb,
  if_both, same, occurs, total-append, inl, inr, ◌⊎◌, arith,
}

some_positive : (a b : ℕ) → 0 < a + b → (0 < a) ⊎ (0 < b)
some_positive zero b h = inr (omega arith)
some_positive (suc a) b h = inl (omega arith)

double : (level : ℕ) → 2 ^ (level + 1) ≡ 2 ^ level + 2 ^ level
double level = let e : level + 1 ≡ suc level = omega arith in ap (λ k. 2 ^ k) e ∙ two-pow-succ level

even_step : (m q i k : ℕ) → q ≡ m + m → i + q * k ≡ i + m * (2 * k)
even_step m q i k p = ap (λ r. i + r * k) p ∙ grind arith

odd_step : (m q i k : ℕ) → q ≡ m + m → i + m + q * k ≡ i + m * (1 + 2 * k)
odd_step m q i k p = ap (λ r. i + m + r * k) p ∙ grind arith

zero_or_positive : (a : ℕ) → (a ≡ 0) ⊎ (0 < a)
zero_or_positive zero = inl refl
zero_or_positive (suc a) = inr (omega arith)

-- The two halves of the multiples of a distance.
halves_apart : (m my_id j k : ℕ) → 0 < m → my_id + (m + m) * j ≢ my_id + m + (m + m) * k
halves_apart m my_id j k pos e =
    let c : m * (2 * j) ≡ m * (1 + 2 * k) = grind arith in
    let d : 2 * j ≡ 1 + 2 * k =
      sym (mul-div_cancel_left (2 * j) pos)
      ∙ ap (λ q. q / m) c
      ∙ mul-div_cancel_left (1 + 2 * k) pos in
    omega arith

-- A worker of a level starts the workers at multiples of its distance and no others.
wrapper-form :
    (fuel n my_id level x : ℕ)
    → 0 < occurs x (wrapper fuel n my_id level)
    → (k : ℕ) × (x ≡ my_id + 2 ^ level * k)
unfolding wrapper
wrapper-form zero n my_id level x h = absurd (omega arith)
wrapper-form (suc fuel) n my_id level x h =
    let m = 2 ^ level in
    let p : 2 ^ (level + 1) ≡ m + m = double level in
    if_both (λ (l : List ℕ). 0 < occurs x l → (k : ℕ) × (x ≡ my_id + m * k))
      (leb (my_id + m) (n - 1))
      (λ t g.
        elim (some_positive (occurs x (wrapper fuel n (my_id + m) (level + 1)))
          (occurs x (wrapper fuel n my_id (level + 1)))
          (subst (λ c. 0 < c)
            (total-append (same x) (wrapper fuel n (my_id + m) (level + 1))
              (wrapper fuel n my_id (level + 1)))
            g)) [
              | inl a ↦
                  let r = wrapper-form fuel n (my_id + m) (level + 1) x a in
                  (1 + 2 * r.0, r.1 ∙ odd_step m (2 ^ (level + 1)) my_id r.0 p)
              | inr a ↦
                  let r = wrapper-form fuel n my_id (level + 1) x a in
                  (2 * r.0, r.1 ∙ even_step m (2 ^ (level + 1)) my_id r.0 p)
            ])
      (λ t g. (0, ground arith)) h

-- Where a worker does not call the function.
wrapper-never :
    (fuel n my_id level x : ℕ)
    → ((k : ℕ) → x ≢ my_id + 2 ^ level * k)
    → occurs x (wrapper fuel n my_id level) ≡ 0
wrapper-never fuel n my_id level x apart =
    elim (zero_or_positive (occurs x (wrapper fuel n my_id level))) [
      | inl e ↦ e
      | inr h ↦ let r = wrapper-form fuel n my_id level x h in absurd (apart r.0 r.1)
    ]

small_multiple : (m k : ℕ) → m * k < m → m * k ≡ 0
small_multiple m zero h = grind arith
small_multiple m (suc k) h = absurd (grind arith)

parity : (k : ℕ) → (j : ℕ) × ((k ≡ 2 * j) ⊎ (k ≡ 1 + 2 * j))
parity k = (k / 2, ground arith)

-- Every one of them once.
wrapper-once :
    (fuel n my_id level k : ℕ)
    → n < my_id + 2 ^ level + suc fuel
    → my_id + 2 ^ level * k < n
    → occurs (my_id + 2 ^ level * k) (wrapper (suc fuel) n my_id level) ≡ 1
unfolding wrapper
wrapper-once zero n my_id level k enough small =
    if_both (λ (l : List ℕ). occurs (my_id + 2 ^ level * k) l ≡ 1) (leb (my_id + 2 ^ level) (n - 1))
      (λ t. absurd (ground arith))
      (λ t. let z = small_multiple (2 ^ level) k (omega arith) in ground arith)
wrapper-once (suc fuel) n my_id level k enough small =
    let m = 2 ^ level in
    let x = my_id + m * k in
    let pos : 0 < m = one-le-pow level 2 (ground arith) in
    let p : 2 ^ (level + 1) ≡ m + m = double level in
    let spawned = wrapper (suc fuel) n (my_id + m) (level + 1) in
    let rest = wrapper (suc fuel) n my_id (level + 1) in
    if_both (λ (l : List ℕ). occurs x l ≡ 1) (leb (my_id + m) (n - 1))
      (λ t.
        let j = (parity k).0 in
        total-append (same x) spawned rest ∙ elim (parity k).1 [
          | inl e ↦
              let x_eq : x ≡ my_id + 2 ^ (level + 1) * j =
                ap (λ r. my_id + m * r) e ∙ sym (even_step m (2 ^ (level + 1)) my_id j p) in
              let none_left : occurs x spawned ≡ 0 =
                wrapper-never (suc fuel) n (my_id + m) (level + 1) x (λ i a.
                  halves_apart m my_id j i pos (
                    ap (λ q. my_id + q * j) (sym p)
                    ∙ sym x_eq
                    ∙ a
                    ∙ ap (λ q. my_id + m + q * i) p)) in
              let once : occurs x rest ≡ 1 =
                subst (λ y. occurs y rest ≡ 1) (sym x_eq)
                  (wrapper-once fuel n my_id (level + 1) j (omega arith)
                    (omega (arith, x_eq, small))) in
              omega (arith, none_left, once)
          | inr e ↦
              let x_eq : x ≡ my_id + m + 2 ^ (level + 1) * j =
                ap (λ r. my_id + m * r) e ∙ sym (odd_step m (2 ^ (level + 1)) my_id j p) in
              let none_left : occurs x rest ≡ 0 =
                wrapper-never (suc fuel) n my_id (level + 1) x (λ i a.
                  halves_apart m my_id i j pos (
                    ap (λ q. my_id + q * i) (sym p)
                    ∙ sym a
                    ∙ x_eq
                    ∙ ap (λ q. my_id + m + q * j) p)) in
              let once : occurs x spawned ≡ 1 =
                subst (λ y. occurs y spawned ≡ 1) (sym x_eq)
                  (wrapper-once fuel n (my_id + m) (level + 1) j (omega arith)
                    (omega (arith, x_eq, small))) in
              omega (arith, none_left, once)
        ])
      (λ t. let z = small_multiple m k (ground arith) in ground arith)

-- For at least one worker: when `qloop_wrapper` runs as worker 0 at level 0, every worker with an
-- id below the number of workers calls the function exactly once. Fuel beyond the number of
-- workers is enough.
pub wrapper-occurs : (fuel n x : ℕ) → n ≤ fuel → x < n → occurs x (wrapper (suc fuel) n 0 0) ≡ 1
wrapper-occurs fuel n x enough small =
    subst (λ y. occurs y (wrapper (suc fuel) n 0 0) ≡ 1) (omega arith)
      (wrapper-once fuel n 0 0 x (omega arith) (omega arith))
