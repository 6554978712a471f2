-- ===== src/HashMap/Fill.antt =====
-- src/hashmap.c where qt_hash_put_locked writes a key that is not in the table, and
-- qt_hash_remove_locked marks an entry as removed.
use qthreads.HashMap.Cover.{route_inside}
use qthreads.HashMap.Route.{route}
use qthreads.HashMap.Scan.{scan, NotHit, first_free}
use qthreads.HashMap.State.{Laid, Placed, found, lookup, lookup-scan, write_keeps, write_others}
use qthreads.HashMap.Tally.{tally, live, dead, tally-update}
use qthreads.HashMap.Write.{scan_put, first_free-key}
use qthreads.HashMap.{Entry, Table, hit, fill_entry, one_if}
use qthreads.Prelude.{
  ℕ, ◌+◌, ◌-◌, ◌*◌, ◌^◌, ◌≤◌, ◌<◌, ◌≡◌, refl, sym, ◌∙◌, ap, subst, some, inl, inr, arith, update,
  update_same, update_ne, eq_or_ne, if◌then◌else◌, ◌==◌, Bool-cases,
}

module _ {b n : ℕ} {h : Table} (t : Laid b n h) (key value : ℕ) (big : 2 ≤ key)
    (absent : NotHit h.entries key (route b n key)) (f : ℕ)
    (e : first_free h.entries (route b n key) ≡ some f) where
  old_small : (h.entries f).key < 2
  old_small = (first_free-key h.entries f (route b n key) e).1

  inside : f < 2 ^ n * 2 ^ b
  inside = route_inside b n key f (first_free-key h.entries f (route b n key) e).0

  new_Placed : Placed b n (update h.entries f (record { key = key; value = value }))
  new_Placed s k few same many = elim (eq_or_ne key k) [
    | inl c ↦ elim (eq_or_ne f s) [
      | inl d ↦
          subst
            (λ x.
              scan (update h.entries f (record { key = key; value = value })) x (route b n x)
              ≡ hit s)
            c
            (scan_put h.entries key f (record { key = key; value = value }) (route b n key) refl
                absent e
              ∙ ap hit d)
      | inr d ↦
          let old : (h.entries s).key ≡ key =
            sym (ap (λ y. y.key) (update_ne h.entries f s (record { key = key; value = value }) d))
            ∙ same
            ∙ sym c in
          absurd (absent s (t.placed s key few old big))
    ]
    | inr d ↦
        write_keeps b n h.entries f (record { key = key; value = value }) t.placed
          (λ z. omega (arith, z, big)) s k few same many d
  ]

  new_lives :
      tally live (update h.entries f (record { key = key; value = value })) (2 ^ n * 2 ^ b)
      ≡ h.population + 1
  new_lives =
      let u =
        tally-update live h.entries f (record { key = key; value = value }) (2 ^ n * 2 ^ b)
          inside in
      let o : one_if (live (h.entries f)) ≡ 0 = ground (arith, old_small) in
      let w : one_if (live (record { key = key; value = value })) ≡ 1 = ground (arith, big) in
      omega (arith, u, o, w, t.lives)

  new_deads :
      tally dead (update h.entries f (record { key = key; value = value })) (2 ^ n * 2 ^ b)
      ≡ (if (h.entries f).key == 1 then h.deletes - 1 else h.deletes)
  new_deads =
      let u =
        tally-update dead h.entries f (record { key = key; value = value }) (2 ^ n * 2 ^ b)
          inside in
      let w : one_if (dead (record { key = key; value = value })) ≡ 0 = ground (arith, big) in
      elim (Bool-cases ((h.entries f).key == 1)) [
        | inl o ↦ rw o (let c = ap one_if o in omega (arith, u, c, w, t.deads))
        | inr o ↦ rw o (let c = ap one_if o in omega (arith, u, c, w, t.deads))
      ]

  new_room :
      ((h.entries f).key ≡ 0 → h.population + h.deletes ≤ h.tidy_up_size)
      → h.population + 1 + (if (h.entries f).key == 1 then h.deletes - 1 else h.deletes)
        ≤ h.tidy_up_size + 1
  new_room calm = elim (Bool-cases ((h.entries f).key == 1)) [
    | inl o ↦
        let u =
          tally-update dead h.entries f (record { key = key; value = value }) (2 ^ n * 2 ^ b)
            inside in
        let w : one_if (dead (record { key = key; value = value })) ≡ 0 = ground (arith, big) in
        let c = ap one_if o in rw o (omega (arith, u, w, c, t.deads, t.room))
    | inr o ↦
        let z : (h.entries f).key ≡ 0 = ground (arith, o, old_small) in rw o (omega (arith, calm z))
  ]

  pub fill_entry-Laid :
      ((h.entries f).key ≡ 0 → h.population + h.deletes ≤ h.tidy_up_size)
      → Laid b n (fill_entry f key value h)
  unfolding fill_entry
  fill_entry-Laid calm = record {
    shape = record { masked = t.shape.masked; sized = t.shape.sized; narrow = t.shape.narrow };
    large = t.large;
    placed = new_Placed;
    lives = new_lives;
    deads = new_deads;
    grow = t.grow;
    tidy = t.tidy;
    room = new_room calm;
  }

  pub fill_entry-lookup :
      ((h.entries f).key ≡ 0 → h.population + h.deletes ≤ h.tidy_up_size)
      → (k : ℕ) → 2 ≤ k
      → lookup (2 ^ b) (fill_entry f key value h) k
        ≡ (if k == key then some value else lookup (2 ^ b) h k)
  unfolding fill_entry
  fill_entry-lookup calm k many =
      let new : Entry = record { key = key; value = value } in
      let after = lookup-scan (fill_entry-Laid calm).shape k in
      elim (Bool-cases (k == key)) [
        | inl y ↦
            let c : k ≡ key = ground (arith, y) in
            rw y (
              after
              ∙ ap
                  (λ x.
                    found (update h.entries f new) (scan (update h.entries f new) x (route b n x)))
                  c
              ∙ ap (found (update h.entries f new))
                  (scan_put h.entries key f new (route b n key) refl absent e)
              ∙ ap (λ z. some z.value) (update_same h.entries f new))
        | inr y ↦ rw y (
            after
            ∙ write_others b n h.entries f new t.placed (λ z. omega (arith, z, big)) k many
                (λ c. ground (arith, y, c)) (λ c. omega (arith, c, many, old_small))
            ∙ sym (lookup-scan t.shape k))
      ]
