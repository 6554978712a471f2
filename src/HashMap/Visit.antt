-- ===== src/HashMap/Visit.antt =====
-- src/hashmap.c: the entries that qt_hash_callback goes through.
use qthreads.HashMap.State.{Laid}
use qthreads.HashMap.Tally.{tally, live, tally_next, tally_passed}
use qthreads.HashMap.{Entry, Table, visit_entries, hash_callback, hash_count, one_if}
use qthreads.Prelude.{
  ℕ, zero, suc, ◌+◌, ◌*◌, ◌^◌, ◌<◌, ◌≡◌, refl, sym, ap, true, false, List, [], ◌∷◌, inl, inr, arith,
  if◌then◌else◌, ◌==◌, ltb, Bool-cases, length,
}

-- The entries in use, of `left` from `slot` on.
abbrev pub live_entries : (ℕ → Entry) → ℕ → ℕ → List Entry
live_entries entries zero slot = []
live_entries entries (suc left) slot =
    let rest = live_entries entries left (slot + 1) in
    if ltb 1 (entries slot).key then entries slot ∷ rest else rest

module _ {b n : ℕ} {h : Table} (t : Laid b n h) where
  live_entries-none :
      (left slot : ℕ)
      → slot + left ≡ 2 ^ n * 2 ^ b
      → tally live h.entries slot ≡ h.population
      → live_entries h.entries left slot ≡ []
  live_entries-none zero slot e all = refl
  live_entries-none (suc left) slot e all = elim (Bool-cases (ltb 1 (h.entries slot).key)) [
    | inl y ↦
        let r = tally_passed live h.entries (2 ^ n * 2 ^ b) slot (omega (arith, e)) y in
        absurd (omega (arith, r, all, t.lives))
    | inr y ↦
        let z = ap one_if y in
        rw y (
          live_entries-none left (slot + 1) (omega (arith, e))
            (omega (arith, all, z, tally_next live h.entries slot)))
  ]

  visit_entries-live :
      (left slot visited : ℕ)
      → slot + left ≡ 2 ^ n * 2 ^ b
      → visited ≡ tally live h.entries slot
      → visited < h.population
      → visit_entries h.entries h.population left slot visited ≡ live_entries h.entries left slot
  unfolding visit_entries
  visit_entries-live zero slot visited e so_far go = refl
  visit_entries-live (suc left) slot visited e so_far go =
      elim (Bool-cases (ltb 1 (h.entries slot).key)) [
        | inr y ↦
            let z = ap one_if y in
            rw y (
              visit_entries-live left (slot + 1) visited (omega (arith, e))
                (omega (arith, so_far, z, tally_next live h.entries slot)) go)
        | inl y ↦
            let o = ap one_if y in
            let next = tally_next live h.entries slot in
            elim (Bool-cases (visited + 1 == h.population)) [
              | inl w ↦
                  let c : visited + 1 ≡ h.population = ground (arith, w) in
                  rw (y, w)
                    (ap (λ l. h.entries slot ∷ l)
                      (sym (
                        live_entries-none left (slot + 1) (omega (arith, e))
                          (omega (arith, so_far, o, next, c)))))
              | inr w ↦
                  rw (y, w)
                    (ap (λ l. h.entries slot ∷ l)
                      (visit_entries-live left (slot + 1) (visited + 1) (omega (arith, e))
                        (omega (arith, so_far, o, next)) (ground (arith, w, go))))
            ]
      ]

  -- In a table that agrees with its counts and holds neither 0 nor 1, qt_hash_callback goes through
  -- the entries in use, each once and in their order.
  pub hash_callback-live :
      h.has_key 0 ≡ false
      → h.has_key 1 ≡ false
      → hash_callback h ≡ live_entries h.entries h.num_entries 0
  unfolding hash_callback
  hash_callback-live null deleted =
      let size = t.shape.sized in
      elim (Bool-cases (ltb 0 h.population)) [
        | inl y ↦
            rw (hash_callback, null, deleted, y)
              (visit_entries-live h.num_entries 0 0 (omega (arith, size)) refl (ground (arith, y)))
        | inr y ↦
            let z : 0 ≡ h.population = ground (arith, y) in
            rw (hash_callback, null, deleted, y)
              (sym (live_entries-none h.num_entries 0 (omega (arith, size)) z))
      ]

  visit_entries-length :
      (left slot visited extra : ℕ)
      → slot + left ≡ 2 ^ n * 2 ^ b
      → visited ≡ extra + tally live h.entries slot
      → visited < h.population
      → visited + length (visit_entries h.entries h.population left slot visited) ≡ h.population
  unfolding visit_entries
  visit_entries-length zero slot visited extra e so_far go =
      let k : slot ≡ 2 ^ n * 2 ^ b = omega (arith, e) in
      let c = ap (tally live h.entries) k in absurd (omega (arith, so_far, go, c, t.lives))
  visit_entries-length (suc left) slot visited extra e so_far go =
      elim (Bool-cases (ltb 1 (h.entries slot).key)) [
        | inr y ↦
            let z = ap one_if y in
            rw y (
              visit_entries-length left (slot + 1) visited extra (omega (arith, e))
                (omega (arith, so_far, z, tally_next live h.entries slot)) go)
        | inl y ↦
            let o = ap one_if y in
            let next = tally_next live h.entries slot in
            elim (Bool-cases (visited + 1 == h.population)) [
              | inl w ↦ rw (y, w) (ground (arith, w))
              | inr w ↦
                  let r =
                    visit_entries-length left (slot + 1) (visited + 1) extra (omega (arith, e))
                      (omega (arith, so_far, o, next)) (ground (arith, w, go)) in
                  rw (y, w) (omega (arith, r))
            ]
      ]

  -- In a table that agrees with its counts, holds 0 or 1 and has more keys above 1 than it holds of
  -- these two, qt_hash_callback goes through fewer entries than qt_hash_count tells: as many as there
  -- are keys above 1.
  pub hash_callback-Short :
      0 < one_if (h.has_key 0) + one_if (h.has_key 1)
      → one_if (h.has_key 0) + one_if (h.has_key 1) < h.population
      → (length (hash_callback h) ≡ h.population) × (length (hash_callback h) < hash_count h)
  unfolding hash_callback hash_count
  hash_callback-Short some_key few =
      let size = t.shape.sized in
      elim (Bool-cases (h.has_key 0)) [
        | inl p ↦ elim (Bool-cases (h.has_key 1)) [
          | inl q ↦
              let less : 2 < h.population =
                (let a = ap one_if p in let c = ap one_if q in omega (arith, a, c, few)) in
              let y : ltb 2 h.population ≡ true = ground (arith, less) in
              let r = visit_entries-length h.num_entries 0 2 2 (omega (arith, size)) refl less in
              rw (hash_callback, hash_count, p, q, y) ((omega (arith, r)), (omega (arith, r)))
          | inr q ↦
              let less : 1 < h.population =
                (let a = ap one_if p in let c = ap one_if q in omega (arith, a, c, few)) in
              let y : ltb 1 h.population ≡ true = ground (arith, less) in
              let r = visit_entries-length h.num_entries 0 1 1 (omega (arith, size)) refl less in
              rw (hash_callback, hash_count, p, q, y) ((omega (arith, r)), (omega (arith, r)))
        ]
        | inr p ↦ elim (Bool-cases (h.has_key 1)) [
          | inl q ↦
              let less : 1 < h.population =
                (let a = ap one_if p in let c = ap one_if q in omega (arith, a, c, few)) in
              let y : ltb 1 h.population ≡ true = ground (arith, less) in
              let r = visit_entries-length h.num_entries 0 1 1 (omega (arith, size)) refl less in
              rw (hash_callback, hash_count, p, q, y) ((omega (arith, r)), (omega (arith, r)))
          | inr q ↦
              let a = ap one_if p in let c = ap one_if q in absurd (omega (arith, a, c, some_key))
        ]
      ]
