-- ===== src/HashMap/Grow.antt =====
-- src/hashmap.c: qt_hash_put_locked with a key that is not in the table, where the table may be made
-- larger or cleared of its removed entries first.
use native.Mathlib.Nat.{two-pow-succ}
use qthreads.HashMap.Rehash.{Rehashed, brehash_lem}
use qthreads.HashMap.State.{Laid, lookup}
use qthreads.HashMap.Step.{
  Stored, PutsInto, put_found, hash_put_roomy, roomy-PutsInto, size_mono, fill_entry-Stored,
}
use qthreads.HashMap.{Table, success, hash_put, brehash, fill_entry}
use qthreads.Prelude.{
  ℕ, suc, ◌+◌, ◌-◌, ◌*◌, ◌/◌, ◌^◌, ◌≤◌, ◌<◌, ◌≡◌, refl, sym, ◌∙◌, ap, subst, false, none, some, inl,
  inr, arith, if◌then◌else◌, ◌==◌, ltb, leb, Bool-cases, eq_or_ne,
}

-- A put in the new table is one in the old one.
Stored-Rehashed :
    {b c : ℕ} {h d after : Table} {key value : ℕ}
    → Rehashed b c h d
    → Stored b c d key value after
    → Stored b c h key value after
Stored-Rehashed {b} {key = key} {value = value} r s = record {
  laid = s.laid;
  values = λ k big. s.values k big ∙ ap (λ x. if k == key then some value else x) (r.values k big);
  grown = s.grown ∙ ap (λ x. x + 1) r.as_many;
  clean = let x = r.clean in let y = s.clean in omega (arith, x, y);
  shrink = s.shrink ∙ r.shrink;
  value = s.value ∙ r.value;
  has_key = s.has_key ∙ r.has_key;
}

pub size_double : (b n : ℕ) → 2 ^ (n + 1) * 2 ^ b ≡ 2 ^ n * 2 ^ b + 2 ^ n * 2 ^ b
size_double b n =
    let c : n + 1 ≡ suc n = omega arith in
    let s : 2 ^ (n + 1) ≡ 2 ^ n + 2 ^ n = ap (λ x. 2 ^ x) c ∙ two-pow-succ n in
    let e : (2 ^ n + 2 ^ n) * 2 ^ b ≡ 2 ^ n * 2 ^ b + 2 ^ n * 2 ^ b = grind arith in
    ap (λ x. x * 2 ^ b) s ∙ e

module _ {b n : ℕ} {h : Table} (t : Laid b n h) (m fuel key value : ℕ) (big : 2 ≤ key)
    (absent : lookup (2 ^ b) h key ≡ none) (least : m ≤ n + b) (null : h.has_key 0 ≡ false)
    (deleted : h.has_key 1 ≡ false) where
  -- The rehash to 2 ^ c buckets, and the put in the new table.
  put_again :
      (c entries : ℕ)
      → n ≤ c
      → entries ≡ 2 ^ c * 2 ^ b
      → 2 ^ c * 2 ^ b ≤ 2 ^ 24
      → 128 ≤ 2 ^ c * 2 ^ b
      → h.population < 2 ^ c * 2 ^ b * 10905190 / 2 ^ 24 - 1
      → (after : Table) × (elim (brehash
            (hash_put (suc fuel) (2 ^ b) (2 ^ m))
            (2 ^ b)
            (2 ^ m)
            entries
            h) [ none ↦ none | some d ↦ hash_put (suc fuel) (2 ^ b) (2 ^ m) d key value ]
          ≡ some (after, success))
        × Stored b c h key value after
  put_again c entries up size narrow large room =
      let (to, more, less, d, same, w) =
        brehash_lem t c m (omega (arith, least, up)) narrow large
          (hash_put (suc fuel) (2 ^ b) (2 ^ m)) c (omega arith)
          (roomy-PutsInto b c c h.population fuel (2 ^ m) (omega (arith, room))) null deleted in
      let e : to ≡ c = omega (arith, more, less) in
      let w : Rehashed b c h d = subst (λ x. Rehashed b x h d) e w in
      let fits : d.population < d.grow_size = omega (arith, room, w.as_many, w.laid.grow) in
      let p =
        hash_put_roomy b c fuel (2 ^ m) d key value w.laid big (w.values key big ∙ absent) fits
          (omega (arith, fits, w.clean, w.laid.grow, w.laid.tidy)) in
      (
        p.0,
        ap
              (λ x. elim (brehash (hash_put (suc fuel) (2 ^ b) (2 ^ m)) (2 ^ b) (2 ^ m) x h) [
                | none ↦ none
                | some d ↦ hash_put (suc fuel) (2 ^ b) (2 ^ m) d key value
              ])
              size
            ∙ ap
                (λ x. elim x [
                  | none ↦ none
                  | some d ↦ hash_put (suc fuel) (2 ^ b) (2 ^ m) d key value
                ])
                same
            ∙ p.1,
        Stored-Rehashed w p.2,
      )

  pub hash_put_lem :
      2 ^ (n + 1) * 2 ^ b ≤ 2 ^ 24
      → (c : ℕ) × (n ≤ c)
        × (c ≤ n + 1)
        × (after : Table) × (hash_put (suc (suc fuel)) (2 ^ b) (2 ^ m) h key value
            ≡ some (after, success))
        × Stored b c h key value after
  hash_put_lem narrow =
      let r = put_found t (suc fuel) (2 ^ m) key value big absent in
      let here = fill_entry-Stored t key value big absent r.0 r.1 in
      elim (Bool-cases ((h.entries r.0).key == 0)) [
        | inr z ↦ (
          n,
          (omega arith),
          (omega arith),
          fill_entry r.0 key value h,
          r.2 ∙ rw z refl,
          here (λ e. absurd (ground (arith, z, e))),
        )
        | inl z ↦ elim (Bool-cases (leb h.grow_size h.population)) [
          | inl g ↦
              let twice = size_double b n in
              let p =
                put_again (n + 1) (h.num_entries * 2) (omega arith)
                  (omega (arith, t.shape.sized, twice)) narrow (omega (arith, twice, t.large))
                  (omega (arith, twice, t.room, t.tidy, t.large)) in
              (n + 1, (omega arith), (omega arith), p.0, r.2 ∙ rw (z, g) p.1, p.2)
          | inr g ↦ elim (Bool-cases (ltb h.tidy_up_size (h.population + h.deletes))) [
            | inl c ↦
                let room : h.population < h.grow_size = ground (arith, g) in
                let p =
                  put_again n h.num_entries (omega arith) t.shape.sized t.shape.narrow t.large
                    (omega (arith, room, t.grow)) in
                (n, (omega arith), (omega arith), p.0, r.2 ∙ rw (z, g, c) p.1, p.2)
            | inr c ↦ (
              n,
              (omega arith),
              (omega arith),
              fill_entry r.0 key value h,
              r.2 ∙ rw (z, g, c) refl,
              here (λ e. ground (arith, c)),
            )
          ]
        ]
      ]

-- A put that makes the table at most twice as large.
pub doubling-PutsInto :
    (b n m fuel cap : ℕ)
    → m ≤ n + b
    → 2 ^ (n + 1) * 2 ^ b ≤ 2 ^ 24
    → 128 ≤ 2 ^ n * 2 ^ b
    → cap ≤ 2 ^ n * 2 ^ b * 13421773 / 2 ^ 24
    → PutsInto b n (n + 1) cap (hash_put (suc (suc fuel)) (2 ^ b) (2 ^ m))
doubling-PutsInto b n m fuel cap least narrow large fits c d key value up down t big absent few
      clean null deleted =
    elim (eq_or_ne c n) [
      | inl e ↦
          let (to, more, less, after, same, w) =
            hash_put_lem t m fuel key value big absent (omega (arith, least, up)) null deleted
              (subst (λ x. 2 ^ (x + 1) * 2 ^ b ≤ 2 ^ 24) (sym e) narrow) in
          (to, (omega (arith, up, more)), (omega (arith, e, less)), after, same, w)
      | inr far ↦
          let twice = size_double b n in
          let s = size_mono b (n + 1) c (omega (arith, up, far)) in
          let room : d.population < d.grow_size =
            omega (arith, few, fits, s, twice, t.grow, large) in
          let r =
            hash_put_roomy b c (suc fuel) (2 ^ m) d key value t big absent room
              (omega (arith, room, clean, t.grow, t.tidy)) in
          (c, up, down, r.0, r.1, r.2)
    ]
