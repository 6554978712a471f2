-- ===== src/HashMap/Tally.antt =====
-- How many entries of a table of src/hashmap.c are in use, and how many were removed.
use qthreads.HashMap.{Entry, one_if}
use qthreads.Prelude.{
  ℕ, zero, suc, ◌+◌, ◌≤◌, ◌<◌, ◌≡◌, refl, sym, ◌∙◌, ap, Bool, true, false, ◌==◌, ltb, inl, inr,
  arith, update, update_same, update_ne, eq_or_ne,
}

-- How many of the first `n` entries pass a test.
abbrev pub tally : (Entry → Bool) → (ℕ → Entry) → ℕ → ℕ
tally q entries zero = 0
tally q entries (suc n) = tally q entries n + one_if (q (entries n))

abbrev pub live : Entry → Bool
live e = ltb 1 e.key

abbrev pub dead : Entry → Bool
dead e = e.key == 1

pub tally_next :
    (q : Entry → Bool) (entries : ℕ → Entry) (n : ℕ)
    → tally q entries (n + 1) ≡ tally q entries n + one_if (q (entries n))
tally_next q entries n = let c : n + 1 ≡ suc n = omega arith in ap (tally q entries) c

tally_above :
    (q : Entry → Bool) (entries : ℕ → Entry) (f : ℕ) (new : Entry) (n : ℕ)
    → n ≤ f
    → tally q (update entries f new) n ≡ tally q entries n
tally_above q entries f new zero h = refl
tally_above q entries f new (suc n) h =
    let u = ap (λ y. one_if (q y)) (update_ne entries f n new (λ c. omega (arith, h, c))) in
    omega (arith, u, tally_above q entries f new n (omega (arith, h)))

pub tally-update :
    (q : Entry → Bool) (entries : ℕ → Entry) (f : ℕ) (new : Entry) (n : ℕ)
    → f < n
    → tally q (update entries f new) n + one_if (q (entries f)) ≡ tally q entries n + one_if (q new)
tally-update q entries f new zero h = absurd (omega (arith, h))
tally-update q entries f new (suc n) h = elim (eq_or_ne f n) [
  | inl e ↦
      let u =
        ap (λ y. one_if (q (update entries y new n))) e
        ∙ ap (λ y. one_if (q y)) (update_same entries n new) in
      let o = ap (λ y. one_if (q (entries y))) e in
      omega (arith, u, o, tally_above q entries f new n (omega (arith, e)))
  | inr d ↦
      let u = ap (λ y. one_if (q y)) (update_ne entries f n new d) in
      omega (arith, u, tally-update q entries f new n (omega (arith, h, d)))
]

-- Where fewer entries are in use or removed than there are, one was never used.
pub unused :
    (entries : ℕ → Entry) (n : ℕ)
    → tally live entries n + tally dead entries n < n
    → (s : ℕ) × (s < n) × ((entries s).key ≡ 0)
unused entries zero h = absurd (omega (arith, h))
unused entries (suc n) h = elim (eq_or_ne (entries n).key 0) [
  | inl e ↦ (n, (omega arith), e)
  | inr d ↦
      let one : 1 ≤ one_if (live (entries n)) + one_if (dead (entries n)) = ground (arith, d) in
      let r = unused entries n (omega (arith, h, one)) in (r.0, (omega (arith, r.1)), r.2)
]

-- An entry that passes is counted.
pub tally_passed :
    (q : Entry → Bool) (entries : ℕ → Entry) (n s : ℕ)
    → s < n
    → q (entries s) ≡ true
    → tally q entries s < tally q entries n
tally_passed q entries zero s h t = absurd (omega (arith, h))
tally_passed q entries (suc n) s h t = elim (eq_or_ne s n) [
  | inl e ↦
      let u = ap (λ y. one_if (q (entries y))) (sym e) ∙ ap one_if t in
      let v = ap (tally q entries) e in omega (arith, u, v)
  | inr d ↦ omega (arith, tally_passed q entries n s (omega (arith, h, d)) t)
]

-- Unused entries.
pub tally_none :
    (q : Entry → Bool) (entries : ℕ → Entry) (n : ℕ)
    → ((s : ℕ) → q (entries s) ≡ false)
    → tally q entries n ≡ 0
tally_none q entries zero h = refl
tally_none q entries (suc n) h =
    let u = ap one_if (h n) in omega (arith, u, tally_none q entries n h)
