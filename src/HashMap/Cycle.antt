-- ===== src/HashMap/Cycle.antt =====
-- Steps of an odd length around a circle of 2 ^ n places, as src/hashmap.c goes from bucket to bucket.
use native.Mathlib.Nat.{
  two-pow-succ, mod-lt, mod-eq_of_lt, div-add-mod', mod-add-mod, add-mul-mod_self_right,
}
use qthreads.HashMap.Bits.{mod_unique, pow_pos}
use qthreads.Prelude.{
  ℕ, zero, suc, ◌+◌, ◌-◌, ◌*◌, ◌/◌, ◌%◌, ◌^◌, ◌<◌, ◌≡◌, ◌≢◌, ◌⊎◌, inl, inr, sym, ◌∙◌, ap, arith,
}

-- An odd number has an inverse: s * t is 1 behind a whole number of turns.
record Inverse (n s : ℕ) : Type 0 where
  factor : ℕ
  turns : ℕ
  one : s * factor ≡ turns * 2 ^ n + 1

inverse : (n s : ℕ) → s % 2 ≡ 1 → Inverse n s
inverse zero s odd = record { factor = 1; turns = s - 1; one = omega (arith, odd) }
inverse (suc n) s odd =
    let i = inverse n s odd in
    let e = two-pow-succ n in
    let even_or_odd : (i.turns % 2 ≡ 0) ⊎ (i.turns % 2 ≡ 1) = omega arith in
    elim even_or_odd [
      | inl h ↦ record {
        factor = i.factor;
        turns = i.turns / 2;
        one =
            let t : i.turns ≡ i.turns / 2 + i.turns / 2 = omega (arith, h) in
            let w = ap (λ x. x * 2 ^ n) t in
            let v = ap (λ x. i.turns / 2 * x) e in grind (arith, i.one, w, v);
      }
      | inr h ↦ record {
        factor = i.factor + 2 ^ n;
        turns = (i.turns + s) / 2;
        one =
            let t : i.turns + s ≡ (i.turns + s) / 2 + (i.turns + s) / 2 = omega (arith, h, odd) in
            let w = ap (λ x. x * 2 ^ n) t in
            let v = ap (λ x. (i.turns + s) / 2 * x) e in grind (arith, i.one, w, v);
      }
    ]

-- The place after `i` steps from `b`.
abbrev pub place : ℕ → ℕ → ℕ → ℕ → ℕ
place n b s i = (b + i * s) % 2 ^ n

pub place_next : (n b s i : ℕ) → (place n b s i + s) % 2 ^ n ≡ place n b s (i + 1)
place_next n b s i =
    mod-add-mod (b + i * s) (2 ^ n) s
    ∙ ap (λ x. x % 2 ^ n) (let c : b + i * s + s ≡ b + (i + 1) * s = grind arith in c)

pub place_turn : (n b s : ℕ) → b < 2 ^ n → place n b s (2 ^ n) ≡ b
place_turn n b s h = mod_unique (b + 2 ^ n * s) s (2 ^ n) b (grind arith) h

turned :
    (b c d i q s m f t : ℕ)
    → (q * m + i) * s ≡ d * f * s
    → d * (s * f) ≡ d * (t * m + 1)
    → d + b ≡ c + m
    → b + i * s + q * s * m ≡ c + (1 + d * t) * m
turned b c d i q s m f t e g h = grind (arith, e, g, h)

-- Every place is reached in less than a turn.
pub place_reach :
    (n b s c : ℕ) → s % 2 ≡ 1 → b < 2 ^ n → c < 2 ^ n → (i : ℕ) × (i < 2 ^ n) × (place n b s i ≡ c)
place_reach n b s c odd small few =
    let m : ℕ = 2 ^ n in
    let v = inverse n s odd in
    let d : ℕ = c + m - b in
    let i : ℕ = d * v.factor % m in
    let q : ℕ = d * v.factor / m in
    let split = div-add-mod' (d * v.factor) m in
    let back : d + b ≡ c + m = omega (arith, small) in
    let scaled = ap (λ x. d * x) v.one in
    let spread = ap (λ x. x * s) split in
    let sum : b + i * s + q * s * m ≡ c + (1 + d * v.turns) * m =
      turned b c d i q s m v.factor v.turns spread scaled back in
    (
      i,
      mod-lt (d * v.factor) (pow_pos n),
      sym (add-mul-mod_self_right (b + i * s) (q * s) m)
          ∙ ap (λ x. x % m) sum
          ∙ add-mul-mod_self_right c (1 + d * v.turns) m
          ∙ mod-eq_of_lt few,
    )

-- The first place is not met again within a turn.
pub place_away : (n b s i : ℕ) → s % 2 ≡ 1 → b < 2 ^ n → 0 < i → i < 2 ^ n → place n b s i ≢ b
place_away n b s i odd small pos few e =
    let m : ℕ = 2 ^ n in
    let v = inverse n s odd in
    let q : ℕ = (b + i * s) / m in
    let split = div-add-mod' (b + i * s) m in
    let turn : i * s ≡ q * m = omega (arith, split, e) in
    let scaled = ap (λ x. i * x) v.one in
    let spread = ap (λ x. x * v.factor) turn in
    let sum : i + i * v.turns * m ≡ 0 + q * v.factor * m = grind (arith, scaled, spread) in
    let none_left : i ≡ 0 =
      sym (mod-eq_of_lt few)
      ∙ sym (add-mul-mod_self_right i (i * v.turns) m)
      ∙ ap (λ x. x % m) sum
      ∙ add-mul-mod_self_right 0 (q * v.factor) m
      ∙ mod-eq_of_lt (pow_pos n) in
    omega (arith, none_left, pos)
