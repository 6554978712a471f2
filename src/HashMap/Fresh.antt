-- ===== src/HashMap/Fresh.antt =====
-- src/hashmap.c: a table that qt_hash_internal_create makes.
use native.Mathlib.Nat.{two-pow-succ, div-add-mod', mod-eq_of_lt}
use qthreads.HashMap.Bits.{pow_pos, mod_unique}
use qthreads.HashMap.Route.{route}
use qthreads.HashMap.Scan.{scan}
use qthreads.HashMap.State.{Laid, lookup, lookup-scan, found-none}
use qthreads.HashMap.Tally.{tally_none, live, dead}
use qthreads.HashMap.Write.{scan_hit}
use qthreads.HashMap.{Table, encompassing_power, internal_create}
use qthreads.Prelude.{
  ℕ, zero, suc, ◌+◌, ◌-◌, ◌*◌, ◌/◌, ◌%◌, ◌^◌, ◌≤◌, ◌≡◌, refl, sym, ◌∙◌, ap, Bool, true, false, none,
  inl, inr, arith, if◌then◌else◌, ◌==◌, ltb, eq_or_ne,
}

pub pow_add : (m k : ℕ) → 2 ^ (m + k) ≡ 2 ^ m * 2 ^ k
pow_add zero k = let c : 0 + k ≡ k = omega arith in ap (λ x. 2 ^ x) c ∙ omega arith
pow_add (suc m) k =
    let c : suc m + k ≡ suc (m + k) = omega arith in
    let u = two-pow-succ (m + k) in
    let v = ap (λ x. x * 2 ^ k) (two-pow-succ m) in
    ap (λ x. 2 ^ x) c ∙ grind (arith, u, v, pow_add m k)

pub pow_mono : (j q : ℕ) → j ≤ q → 2 ^ j ≤ 2 ^ q
pow_mono j q h =
    let c : q ≡ (q - j) + j = omega (arith, h) in
    let e = ap (λ x. 2 ^ x) c ∙ pow_add (q - j) j in
    let p = pow_pos (q - j) in
    let k : 1 * 2 ^ j ≤ 2 ^ (q - j) * 2 ^ j = grind (arith, p) in omega (arith, e, k)

-- The smallest power of two that is not below a power of two is this one.
encompassing_power_lem :
    (fuel j q : ℕ) → j ≤ q → q ≤ j + fuel → encompassing_power fuel (2 ^ j) (2 ^ q) ≡ 2 ^ q
unfolding encompassing_power
encompassing_power_lem zero j q h k = let c : j ≡ q = omega (arith, h, k) in ap (λ x. 2 ^ x) c
encompassing_power_lem (suc fuel) j q h k = elim (eq_or_ne j q) [
  | inl e ↦
      let f : ltb (2 ^ j) (2 ^ q) ≡ false = let c = ap (λ x. 2 ^ x) e in ground (arith, c) in
      rw f (ap (λ x. 2 ^ x) e)
  | inr d ↦
      let c = pow_mono (j + 1) q (omega (arith, h, d)) in
      let s : 2 ^ (j + 1) ≡ 2 ^ j * 2 = pow_add j 1 in
      let p = pow_pos j in
      let l : ltb (2 ^ j) (2 ^ q) ≡ true = ground (arith, c, s, p) in
      rw (l, sym s) (encompassing_power_lem fuel (j + 1) q (omega (arith, h, d)) (omega (arith, k)))
]

-- The table of a given number of entries.
abbrev pub empty_table : ℕ → ℕ → ℕ → Table
empty_table bucketsize min_entries entries = record {
  entries = λ s. record { key = 0; value = 0 };
  mask = (entries - 1) / bucketsize * bucketsize;
  num_entries = entries;
  population = 0;
  deletes = 0;
  grow_size = entries * 10905190 / 2 ^ 24 - 1;
  shrink_size = if entries == min_entries then 0 else entries * 16106127 / 2 ^ 29;
  tidy_up_size = entries * 13421773 / 2 ^ 24 - 1;
  value = λ k. 0;
  has_key = λ k. false;
}

-- The number of entries wanted is a power of two, and no smaller than the smallest number.
pub internal_create_exact :
    (bucketsize m q : ℕ)
    → m ≤ q
    → q ≤ 64
    → internal_create bucketsize (2 ^ m) (2 ^ q) ≡ empty_table bucketsize (2 ^ m) (2 ^ q)
unfolding internal_create
internal_create_exact bucketsize m q h k =
    let c : q ≡ (q - m) + m = omega (arith, h) in
    let e = ap (λ x. 2 ^ x) c ∙ pow_add (q - m) m in
    let z : 2 ^ q % 2 ^ m ≡ 0 =
      mod_unique (2 ^ q) (2 ^ (q - m)) (2 ^ m) 0 (omega (arith, e)) (pow_pos m) in
    let y : (2 ^ q % 2 ^ m == 0) ≡ true = ground (arith, z) in
    rw y (
      ap (empty_table bucketsize (2 ^ m))
        (encompassing_power_lem 64 0 q (omega arith) (omega (arith, k))))

-- The 100 entries of `qt_hash_create` are rounded up to the smallest number.
pub internal_create_rounded :
    (bucketsize m : ℕ)
    → 7 ≤ m
    → m ≤ 64
    → internal_create bucketsize (2 ^ m) 100 ≡ empty_table bucketsize (2 ^ m) (2 ^ m)
unfolding internal_create
internal_create_rounded bucketsize m h k =
    let p : 128 ≤ 2 ^ m = pow_mono 7 m h in
    let z : 100 % 2 ^ m ≡ 100 = mod-eq_of_lt (omega (arith, p)) in
    let y : (100 % 2 ^ m == 0) ≡ false = ground (arith, z) in
    let e : 100 + (2 ^ m - 100 % 2 ^ m) ≡ 2 ^ m = omega (arith, z, p) in
    rw (y, e)
      (ap (empty_table bucketsize (2 ^ m))
        (encompassing_power_lem 64 0 m (omega arith) (omega (arith, k))))

mask_lem : (b n : ℕ) → (2 ^ n * 2 ^ b - 1) / 2 ^ b * 2 ^ b ≡ (2 ^ n - 1) * 2 ^ b
mask_lem b n =
    let x : ℕ = 2 ^ n * 2 ^ b - 1 in
    let p = pow_pos n in
    let w = pow_pos b in
    let split : 2 ^ n * 2 ^ b ≡ (2 ^ n - 1) * 2 ^ b + 2 ^ b =
      (let c : 2 ^ n ≡ (2 ^ n - 1) + 1 = omega (arith, p) in
        ap (λ y. y * 2 ^ b) c
        ∙ (let d : (2 ^ n - 1 + 1) * 2 ^ b ≡ (2 ^ n - 1) * 2 ^ b + 2 ^ b = grind arith in d)) in
    let e : x ≡ (2 ^ n - 1) * 2 ^ b + (2 ^ b - 1) = omega (arith, split, w) in
    let r = mod_unique x (2 ^ n - 1) (2 ^ b) (2 ^ b - 1) e (omega (arith, w)) in
    omega (arith, div-add-mod' x (2 ^ b), r, e)

-- A table without entries, whatever it holds for the keys 0 and 1.
pub empty-Laid :
    (b n m : ℕ) (value : ℕ → ℕ) (has_key : ℕ → Bool)
    → 2 ^ n * 2 ^ b ≤ 2 ^ 24
    → 128 ≤ 2 ^ n * 2 ^ b
    → Laid b n
        (record (empty_table (2 ^ b) (2 ^ m) (2 ^ n * 2 ^ b)) { value = value; has_key = has_key })
empty-Laid b n m value has_key narrow large = record {
  shape = record { masked = mask_lem b n; sized = refl; narrow = narrow };
  large = large;
  placed = λ s key few e big. absurd (omega (arith, e, big));
  lives = tally_none live (λ s. record { key = 0; value = 0 }) (2 ^ n * 2 ^ b) (λ s. refl);
  deads = tally_none dead (λ s. record { key = 0; value = 0 }) (2 ^ n * 2 ^ b) (λ s. refl);
  grow = refl;
  tidy = refl;
  room = omega arith;
}

pub empty-lookup :
    (b n m : ℕ) (value : ℕ → ℕ) (has_key : ℕ → Bool)
    → 2 ^ n * 2 ^ b ≤ 2 ^ 24
    → 128 ≤ 2 ^ n * 2 ^ b
    → (k : ℕ) → 2 ≤ k
    → lookup
        (2 ^ b)
        (record (empty_table (2 ^ b) (2 ^ m) (2 ^ n * 2 ^ b)) { value = value; has_key = has_key })
        k
      ≡ none
empty-lookup b n m value has_key narrow large k big =
    lookup-scan (empty-Laid b n m value has_key narrow large).shape k
    ∙ found-none (λ s. record { key = 0; value = 0 })
        (scan (λ s. record { key = 0; value = 0 }) k (route b n k))
        (λ s e.
          let c = (scan_hit (λ s. record { key = 0; value = 0 }) k s (route b n k) e).1 in
          omega (arith, c, big))
