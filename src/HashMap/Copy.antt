-- ===== src/HashMap/Copy.antt =====
-- src/hashmap.c: the loop of brehash, which puts every entry in use into the new table.
use qthreads.HashMap.Route.{route}
use qthreads.HashMap.Scan.{scan}
use qthreads.HashMap.State.{Laid, lookup}
use qthreads.HashMap.Step.{Stored, PutsInto}
use qthreads.HashMap.Tally.{tally, live, tally_next, tally_passed}
use qthreads.HashMap.Write.{scan_hit}
use qthreads.HashMap.{Entry, Table, Probe, hit, miss, more, Put, copy_entries, one_if}
use qthreads.Prelude.{
  ℕ, zero, suc, ◌+◌, ◌*◌, ◌^◌, ◌≤◌, ◌<◌, ◌≡◌, ◌≢◌, refl, sym, ◌∙◌, ap, subst, true, false, Option,
  none, some, inl, inr, arith, if◌then◌else◌, ◌==◌, ltb, Bool-cases,
}

-- The values of a table in its first `slot` entries.
abbrev pub below : (ℕ → Entry) → ℕ → Probe → Option ℕ
below entries slot (hit s) = if ltb s slot then some (entries s).value else none
below entries slot miss = none
below entries slot more = none

-- The new table when the first `slot` entries of the old one are copied.
pub record Copied (b n c : ℕ) (h : Table) (slot : ℕ) (d : Table) : Type 0 where
  pub laid : Laid b c d
  pub values :
      (k : ℕ) → 2 ≤ k → lookup (2 ^ b) d k ≡ below h.entries slot (scan h.entries k (route b n k))
  pub as_many : d.population ≡ tally live h.entries slot
  pub clean : d.deletes ≡ 0
  pub value : d.value ≡ h.value
  pub has_key : d.has_key ≡ h.has_key

-- One entry more is no more values, unless it is the one that is found.
below_next :
    (entries : ℕ → Entry) (slot : ℕ) (p : Probe)
    → p ≢ hit slot
    → below entries (slot + 1) p ≡ below entries slot p
below_next entries slot (hit s) h =
    let d : s ≢ slot = λ e. h (ap hit e) in
    let c : ltb s (slot + 1) ≡ ltb s slot = ground (arith, d) in
    ap (λ x. if x then some (entries s).value else none) c
below_next entries slot miss h = refl
below_next entries slot more h = refl

module _ {b n : ℕ} {h : Table} (t : Laid b n h) where
  copy_skip :
      {c : ℕ} (slot : ℕ) (d : Table)
      → (h.entries slot).key < 2
      → Copied b n c h slot d
      → Copied b n c h (slot + 1) d
  copy_skip slot d small w = record {
    laid = w.laid;
    values = λ k big.
        w.values k big
        ∙ sym (
            below_next h.entries slot (scan h.entries k (route b n k)) (λ e.
              let r = (scan_hit h.entries k slot (route b n k) e).1 in
              omega (arith, r, small, big)));
    as_many =
        let z : one_if (live (h.entries slot)) ≡ 0 = ground (arith, small) in
        omega (arith, w.as_many, z, tally_next live h.entries slot);
    clean = w.clean;
    value = w.value;
    has_key = w.has_key;
  }

  -- An entry that is not copied yet is not in the new table.
  copy_absent :
      {c : ℕ} (slot : ℕ) (d : Table)
      → slot < 2 ^ n * 2 ^ b
      → 2 ≤ (h.entries slot).key
      → Copied b n c h slot d
      → lookup (2 ^ b) d (h.entries slot).key ≡ none
  copy_absent slot d inside big w =
      let f : ltb slot slot ≡ false = ground arith in
      w.values (h.entries slot).key big
      ∙ ap (below h.entries slot) (t.placed slot (h.entries slot).key inside refl big)
      ∙ ap (λ x. if x then some (h.entries slot).value else none) f

  copy_put :
      {c to : ℕ} (slot : ℕ) (d after : Table)
      → slot < 2 ^ n * 2 ^ b
      → 2 ≤ (h.entries slot).key
      → Stored b to d (h.entries slot).key (h.entries slot).value after
      → Copied b n c h slot d
      → Copied b n to h (slot + 1) after
  copy_put slot d after inside big s w =
      let key : ℕ = (h.entries slot).key in
      record {
        laid = s.laid;
        values = λ k many. s.values k many ∙ elim (Bool-cases (k == key)) [
          | inl y ↦
              let e : key ≡ k = ground (arith, y) in
              let l : ltb slot (slot + 1) ≡ true = ground arith in
              rw y (
                sym (ap (λ x. if x then some (h.entries slot).value else none) l)
                ∙ sym (ap (below h.entries (slot + 1)) (t.placed slot k inside e many)))
          | inr y ↦ rw y (
              w.values k many
              ∙ sym (
                  below_next h.entries slot (scan h.entries k (route b n k)) (λ e.
                    let r : key ≡ k = (scan_hit h.entries k slot (route b n k) e).1 in
                    ground (arith, r, y))))
        ];
        as_many =
            let o : one_if (live (h.entries slot)) ≡ 1 = ground (arith, big) in
            omega (arith, w.as_many, s.grown, o, tally_next live h.entries slot);
        clean = omega (arith, s.clean, w.clean);
        value = s.value ∙ w.value;
        has_key = s.has_key ∙ w.has_key;
      }

  -- When as many are copied as there are, the rest of the old table has none.
  pub copy_rest :
      {c : ℕ} (left slot : ℕ) (d : Table)
      → slot + left ≡ 2 ^ n * 2 ^ b
      → tally live h.entries slot ≡ h.population
      → Copied b n c h slot d
      → Copied b n c h (2 ^ n * 2 ^ b) d
  copy_rest {c} zero slot d e all w =
      let k : slot ≡ 2 ^ n * 2 ^ b = omega (arith, e) in subst (λ x. Copied b n c h x d) k w
  copy_rest (suc left) slot d e all w =
      let small : (h.entries slot).key < 2 = elim (Bool-cases (live (h.entries slot))) [
        | inl l ↦
            let r = tally_passed live h.entries (2 ^ n * 2 ^ b) slot (omega (arith, e)) l in
            absurd (omega (arith, r, all, t.lives))
        | inr l ↦ ground (arith, l)
      ] in
      let z : one_if (live (h.entries slot)) ≡ 0 = ground (arith, small) in
      copy_rest left (slot + 1) d (omega (arith, e))
        (omega (arith, all, z, tally_next live h.entries slot)) (copy_skip slot d small w)

  pub copy_all :
      (put : Table → ℕ → ℕ → Option (Table × Put)) (lo hi : ℕ)
      → PutsInto b lo hi h.population put
      → h.has_key 0 ≡ false
      → h.has_key 1 ≡ false
      → (left c slot copied : ℕ) (d : Table) → lo ≤ c
      → c ≤ hi
      → slot + left ≡ 2 ^ n * 2 ^ b
      → copied ≡ tally live h.entries slot
      → copied < h.population
      → Copied b n c h slot d
      → (to : ℕ) × (lo ≤ to)
        × (to ≤ hi)
        × (after : Table) × (copy_entries put h left slot copied d ≡ some after)
        × Copied b n to h (2 ^ n * 2 ^ b) after
  unfolding copy_entries
  copy_all put lo hi puts null deleted zero c slot copied d up down e some_copied go w =
      let k : slot ≡ 2 ^ n * 2 ^ b = omega (arith, e) in
      (c, up, down, d, refl, subst (λ x. Copied b n c h x d) k w)
  copy_all put lo hi puts null deleted (suc left) c slot copied d up down e some_copied go w =
      elim (Bool-cases (ltb 1 (h.entries slot).key)) [
        | inr f ↦
            let small : (h.entries slot).key < 2 = ground (arith, f) in
            let z : one_if (live (h.entries slot)) ≡ 0 = ground (arith, small) in
            let (to, up, down, after, same, rest) =
              copy_all put lo hi puts null deleted left c (slot + 1) copied d up down
                (omega (arith, e)) (omega (arith, some_copied, z, tally_next live h.entries slot))
                go (copy_skip slot d small w) in
            (to, up, down, after, rw f same, rest)
        | inl f ↦
            let big : 2 ≤ (h.entries slot).key = ground (arith, f) in
            let inside : slot < 2 ^ n * 2 ^ b = omega (arith, e) in
            let room : d.population < h.population = omega (arith, w.as_many, some_copied, go) in
            let (to, up, down, after, same, stored) =
              puts c d (h.entries slot).key (h.entries slot).value up down w.laid big
                (copy_absent slot d inside big w) room w.clean (ap (λ x. x 0) w.has_key ∙ null)
                (ap (λ x. x 1) w.has_key ∙ deleted) in
            let next = copy_put slot d after inside big stored w in
            let o : one_if (live (h.entries slot)) ≡ 1 = ground (arith, big) in
            elim (Bool-cases (copied + 1 == h.population)) [
              | inl y ↦ (
                to,
                up,
                down,
                after,
                rw (f, same, y) refl,
                copy_rest left (slot + 1) after (omega (arith, e))
                    (let c : copied + 1 ≡ h.population = ground (arith, y) in
                      omega (arith, c, some_copied, o, tally_next live h.entries slot))
                    next,
              )
              | inr y ↦
                  let more_to_do : copied + 1 < h.population = ground (arith, y, go) in
                  let (to, up, down, last, again, rest) =
                    copy_all put lo hi puts null deleted left to (slot + 1) (copied + 1) after up
                      down (omega (arith, e))
                      (omega (arith, some_copied, o, tally_next live h.entries slot)) more_to_do
                      next in
                  (to, up, down, last, rw (f, same, y) again, rest)
            ]
      ]
