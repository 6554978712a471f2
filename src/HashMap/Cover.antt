-- ===== src/HashMap/Cover.antt =====
-- The route of a key through a table of src/hashmap.c has every entry of the table.
use native.Mathlib.Nat.{mod-lt, div-add-mod', mul-le-mul_right, div-lt_iff_lt-mul}
use mathlib.Core.List.{Memᴰ}
use mathlib.Core.List.Memᴰ
use mathlib.Core.List.Memᴰ.{head, tail}
use qthreads.Hash.{qt_hash64}
use qthreads.HashMap.Bits.{pow_pos}
use qthreads.HashMap.Cycle.{place, place_reach}
use qthreads.HashMap.Scan.{run_of}
use qthreads.HashMap.Route.{home, stride, stride_odd, round, route, place-home}
use qthreads.Prelude.{
  ℕ, zero, suc, ◌+◌, ◌*◌, ◌/◌, ◌^◌, ◌≤◌, ◌<◌, ◌≡◌, sym, ◌∙◌, ap, subst, inl, inr, arith, eq_or_ne,
}

run_of-Mem : (left slot s : ℕ) → slot ≤ s → s < slot + left → Memᴰ s (run_of left slot)
run_of-Mem zero slot s lo hi = absurd (omega (arith, lo, hi))
run_of-Mem (suc left) slot s lo hi = elim (eq_or_ne s slot) [
  | inl e ↦ head e
  | inr d ↦ tail (run_of-Mem left (slot + 1) s (omega (arith, lo, d)) (omega (arith, hi)))
]

run_of_lt : (left slot s : ℕ) → Memᴰ s (run_of left slot) → s < slot + left
run_of_lt zero slot s m = elim m [ ]
run_of_lt (suc left) slot s (head e) = omega (arith, e)
run_of_lt (suc left) slot s (tail m) = omega (arith, run_of_lt left (slot + 1) s m)

-- An entry of a bucket below 2 ^ n is below the size of the table.
run_inside : (b n p s : ℕ) → p < 2 ^ n → Memᴰ s (run_of (2 ^ b) (p * 2 ^ b)) → s < 2 ^ n * 2 ^ b
run_inside b n p s few m =
    let hi = run_of_lt (2 ^ b) (p * 2 ^ b) s m in
    let k = mul-le-mul_right (2 ^ b) (let c : p + 1 ≤ 2 ^ n = omega (arith, few) in c) in
    let e : (p + 1) * 2 ^ b ≡ p * 2 ^ b + 2 ^ b = grind arith in omega (arith, hi, k, e)

bucket-Mem : (b s : ℕ) → Memᴰ s (run_of (2 ^ b) (s / 2 ^ b * 2 ^ b))
bucket-Mem b s =
    let e = div-add-mod' s (2 ^ b) in
    let lt = mod-lt s (pow_pos b) in
    run_of-Mem (2 ^ b) (s / 2 ^ b * 2 ^ b) s (omega (arith, e)) (omega (arith, e, lt))

module _ (b n key : ℕ) where
  round_inside : (left i s : ℕ) → Memᴰ s (round b n key i left) → s < 2 ^ n * 2 ^ b
  round_inside zero i s m = elim m [ ]
  round_inside (suc left) i s m =
      let p : ℕ = place n (home b n key) (stride b n key) i in
      elim (Memᴰ.append_cases (run_of (2 ^ b) (p * 2 ^ b)) m) [
        | inl a ↦ run_inside b n p s (mod-lt (home b n key + i * stride b n key) (pow_pos n)) a
        | inr r ↦ round_inside left (i + 1) s r
      ]

  pub route_inside : (s : ℕ) → Memᴰ s (route b n key) → s < 2 ^ n * 2 ^ b
  route_inside s m = elim (Memᴰ.append_cases (run_of (2 ^ b) (home b n key * 2 ^ b)) m) [
    | inl a ↦ run_inside b n (home b n key) s (mod-lt (qt_hash64 key / 2 ^ b) (pow_pos n)) a
    | inr r ↦ round_inside (2 ^ n) 1 s r
  ]

  round-Mem :
      (left i j s : ℕ)
      → i ≤ j
      → j < i + left
      → Memᴰ s (run_of (2 ^ b) (place n (home b n key) (stride b n key) j * 2 ^ b))
      → Memᴰ s (round b n key i left)
  round-Mem zero i j s lo hi m = absurd (omega (arith, lo, hi))
  round-Mem (suc left) i j s lo hi m = elim (eq_or_ne i j) [
    | inl e ↦ Memᴰ.append_left (round b n key (i + 1) left) (
        subst (λ x. Memᴰ s (run_of (2 ^ b) (place n (home b n key) (stride b n key) x * 2 ^ b)))
          (sym e) m)
    | inr d ↦
        Memᴰ.append_right (run_of (2 ^ b) (place n (home b n key) (stride b n key) i * 2 ^ b))
          (round-Mem left (i + 1) j s (omega (arith, lo, d)) (omega (arith, hi)) m)
  ]

  -- Every entry of the table is on the route of every key.
  pub route-Mem : (s : ℕ) → s < 2 ^ n * 2 ^ b → Memᴰ s (route b n key)
  route-Mem s few =
      let c : ℕ = s / 2 ^ b in
      let r =
        place_reach n (home b n key) (stride b n key) c (stride_odd b n key)
          (mod-lt (qt_hash64 key / 2 ^ b) (pow_pos n)) ((div-lt_iff_lt-mul (pow_pos b)).1 few) in
      let here = subst (λ x. Memᴰ s (run_of (2 ^ b) (x * 2 ^ b))) (sym r.2) (bucket-Mem b s) in
      elim (eq_or_ne r.0 0) [
        | inl z ↦ Memᴰ.append_left (round b n key 1 (2 ^ n)) (
            subst (λ x. Memᴰ s (run_of (2 ^ b) x))
              (ap (λ x. place n (home b n key) (stride b n key) x * 2 ^ b) z ∙ place-home b n key)
              here)
        | inr p ↦
            Memᴰ.append_right (run_of (2 ^ b) (home b n key * 2 ^ b))
              (round-Mem (2 ^ n) 1 r.0 s (omega (arith, p)) (omega (arith, r.1)) here)
      ]
