-- ===== src/HashMap/Bits.antt =====
-- The masks of src/hashmap.c: `&` with a mask whose lowest bits are 0, and `|` with one bit.
use Prim.Native.Nat.{bit_and, bit_or, bit_and-bitwise, bit_or-bitwise, digits}
use native.Mathlib.Nat.{
  two-pow-succ, div-div-eq-div-mul, mod-lt, mod-eq_of_lt, div-add-mod', add-mul-mod_self_right,
}
use qthreads.Prelude.{
  ℕ, zero, suc, ◌+◌, ◌-◌, ◌*◌, ◌/◌, ◌%◌, ◌^◌, ◌≤◌, ◌<◌, ◌≡◌, refl, sym, ◌∙◌, ap, ap₂, arith, min,
  max,
}

-- As many rounds as the number has digits, or more.
digits_rounds :
    (z : ℕ → ℕ) (f : ℕ → ℕ → ℕ) (n m a b : ℕ) → a ≤ n → a ≤ m → digits z f n a b ≡ digits z f m a b
digits_rounds z f zero zero a b h k = refl
digits_rounds z f zero (suc m) zero b h k = refl
digits_rounds z f (suc n) zero zero b h k = refl
digits_rounds z f (suc n) (suc m) zero b h k = refl
digits_rounds z f zero m (suc a) b h k = absurd (omega arith)
digits_rounds z f (suc n) zero (suc a) b h k = absurd (omega arith)
digits_rounds z f (suc n) (suc m) (suc a) b h k =
    ap (λ r. r * 2 + f (suc a % 2) (b % 2))
      (digits_rounds z f n m (suc a / 2) (b / 2) (omega arith) (omega arith))

and_halves : (a b : ℕ) → bit_and a b ≡ bit_and (a / 2) (b / 2) * 2 + min (a % 2) (b % 2)
and_halves zero b = omega (arith, bit_and-bitwise 0 b, bit_and-bitwise 0 (b / 2))
and_halves (suc a) b = omega (
  arith,
  bit_and-bitwise (suc a) b,
  bit_and-bitwise (suc a / 2) (b / 2),
  digits_rounds (λ c. 0) min a (suc a / 2) (suc a / 2) (b / 2) (omega arith) (omega arith),
)

or_halves : (a b : ℕ) → bit_or a b ≡ bit_or (a / 2) (b / 2) * 2 + max (a % 2) (b % 2)
or_halves zero b = omega (arith, bit_or-bitwise 0 b, bit_or-bitwise 0 (b / 2))
or_halves (suc a) b = omega (
  arith,
  bit_or-bitwise (suc a) b,
  bit_or-bitwise (suc a / 2) (b / 2),
  digits_rounds (λ c. c) max a (suc a / 2) (suc a / 2) (b / 2) (omega arith) (omega arith),
)

and-zero_below : (n a : ℕ) → a ≤ n → bit_and a 0 ≡ 0
and-zero_below n zero h = bit_and-bitwise 0 0
and-zero_below zero (suc a) h = absurd (omega arith)
and-zero_below (suc n) (suc a) h =
    omega (arith, and_halves (suc a) 0, and-zero_below n (suc a / 2) (omega arith))

or-zero_below : (n a : ℕ) → a ≤ n → bit_or a 0 ≡ a
or-zero_below n zero h = bit_or-bitwise 0 0
or-zero_below zero (suc a) h = absurd (omega arith)
or-zero_below (suc n) (suc a) h =
    omega (arith, or_halves (suc a) 0, or-zero_below n (suc a / 2) (omega arith))

pub pow_pos : (n : ℕ) → 0 < 2 ^ n
pow_pos zero = omega arith
pow_pos (suc n) = let e = two-pow-succ n in let h = pow_pos n in omega (arith, e, h)

pub mod_unique : (a q d r : ℕ) → a ≡ q * d + r → r < d → a % d ≡ r
mod_unique a q d r e h =
    ap (λ x. x % d) (e ∙ (let c : q * d + r ≡ r + q * d = omega arith in c))
    ∙ add-mul-mod_self_right r q d
    ∙ mod-eq_of_lt h

mod_double : (a m : ℕ) → 0 < m → a % (m + m) ≡ a / 2 % m * 2 + a % 2
mod_double a m pos =
    let e = div-add-mod' (a / 2) m in
    let h = mod-lt (a / 2) pos in
    mod_unique a (a / 2 / m) (m + m) (a / 2 % m * 2 + a % 2) (grind (arith, e)) (omega (arith, h))

-- A mask of ones.
and_ones : (n a : ℕ) → bit_and a (2 ^ n - 1) ≡ a % 2 ^ n
and_ones zero a = omega (arith, and-zero_below a a (omega arith))
and_ones (suc n) a =
    let e = two-pow-succ n in
    let h = pow_pos n in
    let half : (2 ^ suc n - 1) / 2 ≡ 2 ^ n - 1 = omega (arith, e, h) in
    let odd : (2 ^ suc n - 1) % 2 ≡ 1 = omega (arith, e, h) in
    let step = and_halves a (2 ^ suc n - 1) in
    let rest = ap (bit_and (a / 2)) half ∙ and_ones n (a / 2) in
    let double = mod_double a (2 ^ n) h in
    let same = ap (λ m. a % m) e in omega (arith, step, rest, odd, double, same)

doubled : (y b : ℕ) → y * 2 ^ suc b ≡ y * 2 ^ b + y * 2 ^ b
doubled y b = ap (λ t. y * t) (two-pow-succ b) ∙ grind arith

-- A mask of ones with zeros behind.
pub and_mask : (b n a : ℕ) → bit_and a ((2 ^ n - 1) * 2 ^ b) ≡ a / 2 ^ b % 2 ^ n * 2 ^ b
and_mask zero n a =
    let m : (2 ^ n - 1) * 2 ^ zero ≡ 2 ^ n - 1 = omega arith in
    let d : a / 2 ^ zero ≡ a = omega arith in
    ap (bit_and a) m ∙ and_ones n a ∙ ap (λ x. x % 2 ^ n) (sym d) ∙ omega arith
and_mask (suc b) n a =
    let e = two-pow-succ b in
    let whole = doubled (2 ^ n - 1) b in
    let half : (2 ^ n - 1) * 2 ^ suc b / 2 ≡ (2 ^ n - 1) * 2 ^ b = omega (arith, whole) in
    let even : (2 ^ n - 1) * 2 ^ suc b % 2 ≡ 0 = omega (arith, whole) in
    let step = and_halves a ((2 ^ n - 1) * 2 ^ suc b) in
    let rest = ap (bit_and (a / 2)) half ∙ and_mask b n (a / 2) in
    let twice : 2 * 2 ^ b ≡ 2 ^ suc b = omega (arith, e) in
    let digit : a / 2 / 2 ^ b ≡ a / 2 ^ suc b =
      div-div-eq-div-mul a 2 (2 ^ b) ∙ ap (λ m. a / m) twice in
    let r : ℕ = a / 2 ^ suc b % 2 ^ n in
    let value = ap (λ x. x % 2 ^ n * 2 ^ b) digit in
    let shown = doubled r b in omega (arith, step, rest, even, value, shown)

-- A number of full buckets, with the lowest bit of that number set.
pub or_bit : (b x : ℕ) → bit_or (x * 2 ^ b) (2 ^ b) ≡ (x + (1 - x % 2)) * 2 ^ b
or_bit zero x =
    let m : x * 2 ^ zero ≡ x = omega arith in
    let step = or_halves x 1 in
    let rest = or-zero_below (x / 2) (x / 2) (omega arith) in
    ap (λ y. bit_or y 1) m ∙ omega (arith, step, rest)
or_bit (suc b) x =
    let e = two-pow-succ b in
    let whole = doubled x b in
    let half : x * 2 ^ suc b / 2 ≡ x * 2 ^ b = omega (arith, whole) in
    let bit : 2 ^ suc b / 2 ≡ 2 ^ b = omega (arith, e) in
    let step = or_halves (x * 2 ^ suc b) (2 ^ suc b) in
    let rest = ap₂ bit_or half bit ∙ or_bit b x in
    let shown = doubled (x + (1 - x % 2)) b in omega (arith, step, rest, whole, e, shown)
