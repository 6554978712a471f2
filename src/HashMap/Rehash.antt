-- ===== src/HashMap/Rehash.antt =====
-- src/hashmap.c: brehash makes a table of another size that stands for the same map.
use qthreads.HashMap.Copy.{Copied, copy_all, copy_rest, below}
use qthreads.HashMap.Fresh.{
  empty_table, internal_create_exact, empty-Laid, empty-lookup, pow_add, pow_mono,
}
use qthreads.HashMap.Route.{route}
use qthreads.HashMap.Scan.{scan}
use qthreads.HashMap.State.{Laid, lookup, lookup-scan, found}
use qthreads.HashMap.Step.{PutsInto}
use qthreads.HashMap.Write.{scan_hit}
use qthreads.HashMap.Cover.{route_inside}
use qthreads.HashMap.{
  Entry, Table, Probe, hit, miss, more, Put, copy_entries, internal_create, brehash,
}
use qthreads.Prelude.{
  ℕ, ◌+◌, ◌*◌, ◌^◌, ◌≤◌, ◌<◌, ◌≡◌, refl, sym, ◌∙◌, ap, subst, true, false, Option, none, some, inl,
  inr, arith, if◌then◌else◌, ltb, Bool-cases,
}

-- A table of 2 ^ c buckets in place of another.
pub record Rehashed (b c : ℕ) (h after : Table) : Type 0 where
  pub laid : Laid b c after
  pub values : (k : ℕ) → 2 ≤ k → lookup (2 ^ b) after k ≡ lookup (2 ^ b) h k
  pub as_many : after.population ≡ h.population
  pub clean : after.deletes ≡ 0
  pub shrink : after.shrink_size ≡ h.shrink_size
  pub value : after.value ≡ h.value
  pub has_key : after.has_key ≡ h.has_key

pub pow_le : (q : ℕ) → 2 ^ q ≤ 2 ^ 24 → q ≤ 24
pow_le q h = elim (Bool-cases (ltb 24 q)) [
  | inl t ↦
      let c = pow_mono 25 q (let d : 25 ≤ q = ground (arith, t) in d) in
      absurd (omega (arith, c, h))
  | inr f ↦ ground (arith, f)
]

internal_create_at :
    (b c m : ℕ)
    → m ≤ c + b
    → 2 ^ c * 2 ^ b ≤ 2 ^ 24
    → internal_create (2 ^ b) (2 ^ m) (2 ^ c * 2 ^ b) ≡ empty_table (2 ^ b) (2 ^ m) (2 ^ c * 2 ^ b)
internal_create_at b c m h narrow =
    let e = pow_add c b in
    let q = pow_le (c + b) (omega (arith, e, narrow)) in
    subst (λ x. internal_create (2 ^ b) (2 ^ m) x ≡ empty_table (2 ^ b) (2 ^ m) x) e
      (internal_create_exact (2 ^ b) m (c + b) h (omega (arith, q)))

below_zero : (entries : ℕ → Entry) (p : Probe) → below entries 0 p ≡ none
below_zero entries (hit s) =
    let f : ltb s 0 ≡ false = ground arith in ap (λ x. if x then some (entries s).value else none) f
below_zero entries miss = refl
below_zero entries more = refl

below_all :
    (entries : ℕ → Entry) (n : ℕ) (p : Probe)
    → ((s : ℕ) → p ≡ hit s → s < n)
    → below entries n p ≡ found entries p
below_all entries n (hit s) h =
    let l = h s refl in
    let f : ltb s n ≡ true = ground (arith, l) in
    ap (λ x. if x then some (entries s).value else none) f
below_all entries n miss h = refl
below_all entries n more h = refl

module _ {b n : ℕ} {h : Table} (t : Laid b n h) (c m : ℕ) (least : m ≤ c + b)
    (narrow : 2 ^ c * 2 ^ b ≤ 2 ^ 24) (large : 128 ≤ 2 ^ c * 2 ^ b) where
  fresh-Copied : Copied b n c h 0 (record (empty_table (2 ^ b) (2 ^ m) (2 ^ c * 2 ^ b)) {
    value = h.value;
    has_key = h.has_key;
  })
  fresh-Copied = record {
    laid = empty-Laid b c m h.value h.has_key narrow large;
    values = λ k big.
        empty-lookup b c m h.value h.has_key narrow large k big
        ∙ sym (below_zero h.entries (scan h.entries k (route b n k)));
    as_many = refl;
    clean = refl;
    value = refl;
    has_key = refl;
  }

  Copied-Rehashed :
      {to : ℕ} (d : Table)
      → Copied b n to h (2 ^ n * 2 ^ b) d
      → Rehashed b to h (record d { shrink_size = h.shrink_size })
  Copied-Rehashed {to} d w =
      let laid : Laid b to (record d { shrink_size = h.shrink_size }) = record {
        shape = record {
          masked = w.laid.shape.masked;
          sized = w.laid.shape.sized;
          narrow = w.laid.shape.narrow;
        };
        large = w.laid.large;
        placed = w.laid.placed;
        lives = w.laid.lives;
        deads = w.laid.deads;
        grow = w.laid.grow;
        tidy = w.laid.tidy;
        room = w.laid.room;
      } in
      record {
        laid = laid;
        values = λ k big.
            lookup-scan laid.shape k
            ∙ sym (lookup-scan w.laid.shape k)
            ∙ w.values k big
            ∙ below_all h.entries (2 ^ n * 2 ^ b) (scan h.entries k (route b n k))
                (λ s e. route_inside b n k s (scan_hit h.entries k s (route b n k) e).0)
            ∙ sym (lookup-scan t.shape k);
        as_many = w.as_many ∙ t.lives;
        clean = w.clean;
        shrink = refl;
        value = w.value;
        has_key = w.has_key;
      }

  brehash_fill :
      (put : Table → ℕ → ℕ → Option (Table × Put)) (hi : ℕ)
      → c ≤ hi
      → PutsInto b c hi h.population put
      → h.has_key 0 ≡ false
      → h.has_key 1 ≡ false
      → (to : ℕ) × (c ≤ to)
        × (to ≤ hi)
        × (after : Table) × ((if ltb 0 h.population
              then copy_entries put h h.num_entries 0 0
                  (record (empty_table (2 ^ b) (2 ^ m) (2 ^ c * 2 ^ b)) {
                    value = h.value;
                    has_key = h.has_key;
                  })
              else some (record (empty_table (2 ^ b) (2 ^ m) (2 ^ c * 2 ^ b)) {
                value = h.value;
                has_key = h.has_key;
              }))
            ≡ some after)
        × Copied b n to h (2 ^ n * 2 ^ b) after
  brehash_fill put hi over puts null deleted =
      let d : Table = record (empty_table (2 ^ b) (2 ^ m) (2 ^ c * 2 ^ b)) {
        value = h.value;
        has_key = h.has_key;
      } in
      elim (Bool-cases (ltb 0 h.population)) [
        | inl y ↦
            let (to, up, down, after, same, w) =
              copy_all t put c hi puts null deleted (2 ^ n * 2 ^ b) c 0 0 d (omega arith) over
                (omega arith) refl (ground (arith, y)) fresh-Copied in
            (
              to,
              up,
              down,
              after,
              rw y (ap (λ x. copy_entries put h x 0 0 d) t.shape.sized ∙ same),
              w,
            )
        | inr y ↦
            let z : 0 ≡ h.population = ground (arith, y) in
            (
              c,
              (omega arith),
              over,
              d,
              rw y refl,
              copy_rest t (2 ^ n * 2 ^ b) 0 d (omega arith) z fresh-Copied,
            )
      ]

  pub brehash_lem :
      (put : Table → ℕ → ℕ → Option (Table × Put)) (hi : ℕ)
      → c ≤ hi
      → PutsInto b c hi h.population put
      → h.has_key 0 ≡ false
      → h.has_key 1 ≡ false
      → (to : ℕ) × (c ≤ to)
        × (to ≤ hi)
        × (after : Table) × (brehash put (2 ^ b) (2 ^ m) (2 ^ c * 2 ^ b) h ≡ some after)
        × Rehashed b to h after
  unfolding brehash
  brehash_lem put hi over puts z o =
      let (to, up, down, d, same, w) = brehash_fill put hi over puts z o in
      (
        to,
        up,
        down,
        record d { shrink_size = h.shrink_size },
        rw (brehash, internal_create_at b c m least narrow, z, o)
            (ap
              (λ x. elim x [
                | none ↦ none
                | some y ↦ some (record y { shrink_size = h.shrink_size })
              ])
              same),
        Copied-Rehashed d w,
      )
