-- ===== src/HashMap/Remove.antt =====
-- src/hashmap.c: qt_hash_remove_locked, which marks the entry of a key.
use qthreads.HashMap.Cover.{route_inside}
use qthreads.HashMap.Rehash.{Rehashed, brehash_lem}
use qthreads.HashMap.Route.{route, find_entry-scan}
use qthreads.HashMap.Scan.{scan, settle}
use qthreads.HashMap.State.{
  Laid, found-none, lookup, lookup-scan, write_keeps, write_others, hit_or_not,
}
use qthreads.HashMap.Grow.{doubling-PutsInto}
use qthreads.HashMap.Tally.{tally, live, dead, tally-update}
use qthreads.HashMap.Write.{scan_hit}
use qthreads.HashMap.{Entry, Table, hit, find_entry, hash_put, hash_remove, brehash, one_if}
use qthreads.Prelude.{
  ℕ, suc, ◌+◌, ◌-◌, ◌*◌, ◌/◌, ◌^◌, ◌≤◌, ◌<◌, ◌≡◌, refl, sym, ◌∙◌, ap, Bool, true, false, Option,
  none, some, inl, inr, arith, if◌then◌else◌, ◌==◌, ltb, leb, Bool-cases, update, update_same,
  update_ne, eq_or_ne,
}

-- The table with the entry of `slot` marked as removed.
abbrev pub marked : ℕ → Table → Table
marked slot h =
    let e = h.entries slot in
    record h {
      entries = update h.entries slot (record e { key = 1 });
      deletes = h.deletes + 1;
      population = h.population - 1;
    }

-- A table with one key less.
pub record Removed (b n : ℕ) (h : Table) (gone : ℕ) (after : Table) : Type 0 where
  pub laid : Laid b n after
  pub values :
      (k : ℕ) → 2 ≤ k → lookup (2 ^ b) after k ≡ (if k == gone then none else lookup (2 ^ b) h k)
  pub fewer : after.population + 1 ≡ h.population
  pub shrink : after.shrink_size ≡ h.shrink_size
  pub value : after.value ≡ h.value
  pub has_key : after.has_key ≡ h.has_key

module _ {b n : ℕ} {h : Table} (t : Laid b n h) (key : ℕ) (big : 2 ≤ key) (slot : ℕ)
    (e : scan h.entries key (route b n key) ≡ hit slot) where
  holds : (h.entries slot).key ≡ key
  holds = (scan_hit h.entries key slot (route b n key) e).1

  inside : slot < 2 ^ n * 2 ^ b
  inside = route_inside b n key slot (scan_hit h.entries key slot (route b n key) e).0

  some_left : tally live (marked slot h).entries (2 ^ n * 2 ^ b) + 1 ≡ h.population
  some_left =
      let new : Entry = record { key = 1; value = (h.entries slot).value } in
      let u = tally-update live h.entries slot new (2 ^ n * 2 ^ b) inside in
      let o : one_if (live (h.entries slot)) ≡ 1 = ground (arith, holds, big) in
      omega (arith, u, o, t.lives)

  one_more : tally dead (marked slot h).entries (2 ^ n * 2 ^ b) ≡ h.deletes + 1
  one_more =
      let new : Entry = record { key = 1; value = (h.entries slot).value } in
      let u = tally-update dead h.entries slot new (2 ^ n * 2 ^ b) inside in
      let o : one_if (dead (h.entries slot)) ≡ 0 = ground (arith, holds, big) in
      omega (arith, u, o, t.deads)

  marked-Laid : Laid b n (marked slot h)
  marked-Laid = record {
    shape = record { masked = t.shape.masked; sized = t.shape.sized; narrow = t.shape.narrow };
    large = t.large;
    placed = λ s k few same many.
        write_keeps b n h.entries slot (record { key = 1; value = (h.entries slot).value }) t.placed
          (λ z. omega (arith, z)) s k few same many (λ z. omega (arith, z, many));
    lives = omega (arith, some_left);
    deads = one_more;
    grow = t.grow;
    tidy = t.tidy;
    room = omega (arith, some_left, t.room);
  }

  marked-lookup :
      (k : ℕ)
      → 2 ≤ k
      → lookup (2 ^ b) (marked slot h) k ≡ (if k == key then none else lookup (2 ^ b) h k)
  marked-lookup k many =
      let new : Entry = record { key = 1; value = (h.entries slot).value } in
      let after = update h.entries slot new in
      elim (Bool-cases (k == key)) [
        | inl y ↦
            let c : k ≡ key = ground (arith, y) in
            rw y (
              lookup-scan marked-Laid.shape k
              ∙ found-none after (scan after k (route b n k)) (λ s f.
                let r = scan_hit after k s (route b n k) f in
                elim (eq_or_ne slot s) [
                  | inl d ↦
                      let g : 1 ≡ k =
                        sym (ap (λ y. y.key) (update_same h.entries slot new))
                        ∙ ap (λ y. (after y).key) d
                        ∙ r.1 in
                      omega (arith, g, many)
                  | inr d ↦
                      let old : (h.entries s).key ≡ key =
                        sym (ap (λ y. y.key) (update_ne h.entries slot s new d)) ∙ r.1 ∙ c in
                      let again = t.placed s key (route_inside b n k s r.0) old big in
                      let both : hit slot ≡ hit s = sym e ∙ again in d (let q : slot ≡ s = cc in q)
                ]))
        | inr y ↦ rw y (
            lookup-scan marked-Laid.shape k
            ∙ write_others b n h.entries slot new t.placed (λ z. omega (arith, z)) k many
                (λ z. omega (arith, z, many)) (λ z. ground (arith, z, y, holds))
            ∙ sym (lookup-scan t.shape k))
      ]

  marked-Removed : Removed b n h key (marked slot h)
  marked-Removed = record {
    laid = marked-Laid;
    values = marked-lookup;
    fewer = omega (arith, some_left);
    shrink = refl;
    value = refl;
    has_key = refl;
  }

Removed-Rehashed :
    {b n c : ℕ} {h d after : Table} {key : ℕ}
    → Removed b n h key d
    → Rehashed b c d after
    → Removed b c h key after
Removed-Rehashed w r = record {
  laid = r.laid;
  values = λ k many. r.values k many ∙ w.values k many;
  fewer = ap (λ x. x + 1) r.as_many ∙ w.fewer;
  shrink = r.shrink ∙ w.shrink;
  value = r.value ∙ w.value;
  has_key = r.has_key ∙ w.has_key;
}

-- The rest of a removal that has found the entry of the key.
abbrev pub remove_found : ℕ → ℕ → ℕ → Table → ℕ → Option (Table × Bool)
remove_found fuel bucketsize min_entries h slot =
    let grown = brehash (hash_put fuel bucketsize min_entries) bucketsize min_entries in
    let done : Option Table → Option (Table × Bool) =
      λ o. elim o [ none ↦ none | some d ↦ some (d, true) ] in
    let left = marked slot h in
    if leb h.tidy_up_size (left.population + left.deletes)
    then done (grown h.num_entries left)
    else if ltb left.population h.shrink_size
    then done (grown (h.num_entries / 2) left)
    else some (left, true)

hash_remove-found :
    (fuel bucketsize min_entries : ℕ) (h : Table) (key slot : ℕ)
    → 2 ≤ key
    → find_entry bucketsize h key ≡ some (hit slot)
    → hash_remove fuel bucketsize min_entries h key
      ≡ remove_found fuel bucketsize min_entries h slot
unfolding hash_remove
hash_remove-found fuel bucketsize min_entries h key slot big e =
    let l : ltb key 2 ≡ false = ground (arith, big) in rw (hash_remove, l, e) refl

pub hash_remove_lem :
    {b n : ℕ} {h : Table}
    → (t : Laid b n h) → (m fuel key v : ℕ) → 2 ≤ key
    → lookup (2 ^ b) h key ≡ some v
    → m ≤ n + b
    → h.has_key 0 ≡ false
    → h.has_key 1 ≡ false
    → h.shrink_size ≡ 0
    → 2 ^ (n + 1) * 2 ^ b ≤ 2 ^ 24
    → (to : ℕ) × (n ≤ to)
      × (to ≤ n + 1)
      × (after : Table) × (hash_remove (suc (suc fuel)) (2 ^ b) (2 ^ m) h key ≡ some (after, true))
      × Removed b to h key after
hash_remove_lem {b} {n} {h} t m fuel key v big there least null deleted never narrow =
    elim (hit_or_not (scan h.entries key (route b n key))) [
      | inr out ↦
          let c : none ≡ some v =
            sym (found-none h.entries (scan h.entries key (route b n key)) out)
            ∙ sym (lookup-scan t.shape key)
            ∙ there in
          absurd (let d = c in cc)
      | inl (slot, e) ↦
          let w = marked-Removed t key big slot e in
          let start =
            hash_remove-found (suc (suc fuel)) (2 ^ b) (2 ^ m) h key slot big
              (find_entry-scan t.shape key ∙ ap (λ p. some (settle p)) e) in
          elim (Bool-cases
            (leb h.tidy_up_size ((marked slot h).population + (marked slot h).deletes))) [
              | inl y ↦
                  let some_one = w.fewer in
                  let (to, above, less, after, same, r) =
                    brehash_lem w.laid n m least t.shape.narrow t.large
                      (hash_put (suc (suc fuel)) (2 ^ b) (2 ^ m)) (n + 1) (omega arith)
                      (doubling-PutsInto b n m fuel (h.population - 1) least narrow t.large
                        (omega (arith, t.room, t.tidy, t.large)))
                      null deleted in
                  (
                    to,
                    above,
                    less,
                    after,
                    start
                        ∙ rw y (
                            ap
                              (λ x.
                                elim (brehash (hash_put (suc (suc fuel)) (2 ^ b) (2 ^ m)) (2 ^ b)
                                  (2 ^ m) x (marked slot h)) [
                                    | none ↦ none
                                    | some d ↦ some (d, true)
                                  ])
                              t.shape.sized
                            ∙ ap (λ x. elim x [ none ↦ none | some d ↦ some (d, true) ]) same),
                    Removed-Rehashed w r,
                  )
              | inr y ↦
                  let s : ltb (h.population - 1) h.shrink_size ≡ false = ground (arith, never) in
                  (n, (omega arith), (omega arith), marked slot h, start ∙ rw (y, s) refl, w)
            ]
    ]
