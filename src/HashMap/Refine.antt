-- ===== src/HashMap/Refine.antt =====
-- src/hashmap.c as a map from keys to values: what a table holds after each call.
use qthreads.HashMap.Fresh.{
  empty_table, internal_create_rounded, empty-Laid, empty-lookup, pow_add, pow_mono,
}
use qthreads.HashMap.Grow.{hash_put_lem, size_double}
use qthreads.HashMap.Remove.{hash_remove_lem}
use qthreads.HashMap.Route.{Shape, route, find_entry-scan}
use qthreads.HashMap.Scan.{scan}
use qthreads.HashMap.Step.{size_mono}
use qthreads.HashMap.State.{Laid, lookup, absent-NotHit, settle_miss}
use qthreads.HashMap.{Table, success, hash_create, hash_put, hash_remove, hash_count}
use qthreads.Prelude.{
  ℕ, suc, ◌+◌, ◌-◌, ◌*◌, ◌^◌, ◌≤◌, ◌≡◌, refl, sym, ◌∙◌, ap, subst, Bool, true, false, Option, none,
  some, inl, inr, arith, if◌then◌else◌, ◌==◌, ltb, Bool-cases, Option-cases, update,
}

-- A table that stands for the map `f` on the keys above 1, and holds neither 0 nor 1. It has at least
-- 2 ^ m entries, the number that `qt_hash_internal_create` rounds to.
pub record Holds (b m : ℕ) (h : Table) (f : ℕ → Option ℕ) : Type 0 where
  pub buckets : ℕ
  pub laid : Laid b buckets h
  pub least : m ≤ buckets + b
  pub values : (k : ℕ) → 2 ≤ k → lookup (2 ^ b) h k ≡ f k
  pub never : h.shrink_size ≡ 0
  pub null : h.has_key 0 ≡ false
  pub deleted : h.has_key 1 ≡ false

-- What `qt_hash_get` returns for a value of the map.
abbrev pub or_null : Option ℕ → ℕ
or_null none = 0
or_null (some v) = v

abbrev pub is_there : Option ℕ → Bool
is_there none = false
is_there (some v) = true

update-if :
    (f : ℕ → Option ℕ) (key k : ℕ) (o : Option ℕ) → update f key o k ≡ (if k == key then o else f k)
update-if f key k o = ground arith

narrow_double :
    {b m : ℕ} {h : Table} {f : ℕ → Option ℕ}
    → (w : Holds b m h f) → h.num_entries * 2 ≤ 2 ^ 24
    → 2 ^ (w.buckets + 1) * 2 ^ b ≤ 2 ^ 24
narrow_double {b} w few =
    let s = w.laid.shape.sized in omega (arith, few, s, size_double b w.buckets)

at_most_double :
    {b n to : ℕ} {h after : Table}
    → Shape b n h
    → Shape b to after
    → to ≤ n + 1
    → after.num_entries ≤ h.num_entries * 2
at_most_double {b} {n} {to} old new less =
    let s = size_mono b to (n + 1) less in omega (arith, s, size_double b n, old.sized, new.sized)

-- A put of a key above 1 that the map lacks ends, with two levels of calls, in success. The new table
-- stands for the map with the key added, also where the table was made larger or cleared of removed
-- entries; its count is one more, and it has at most twice as many entries. The old table holds
-- neither the key 0 nor the key 1, nor does the new one, and twice as many entries as the old table
-- has must not be more than 2 ^ 24.
pub hash_put-Holds :
    {b m : ℕ} {h : Table} {f : ℕ → Option ℕ}
    → Holds b m h f
    → (fuel key value : ℕ) → 2 ≤ key
    → f key ≡ none
    → h.num_entries * 2 ≤ 2 ^ 24
    → (after : Table) × (hash_put (suc (suc fuel)) (2 ^ b) (2 ^ m) h key value
        ≡ some (after, success))
      × Holds b m after (update f key (some value))
      × (hash_count after ≡ hash_count h + 1)
      × (after.num_entries ≤ h.num_entries * 2)
unfolding hash_count
hash_put-Holds {b} {m} {h} {f} w fuel key value big absent few =
    let (to, above, less, after, same, s) =
      hash_put_lem w.laid m fuel key value big (w.values key big ∙ absent) w.least w.null w.deleted
        (narrow_double w few) in
    (
      after,
      same,
      record {
        buckets = to;
        laid = s.laid;
        least = let l = w.least in omega (arith, l, above);
        values = λ k many.
            s.values k many
            ∙ ap (λ x. if k == key then some value else x) (w.values k many)
            ∙ sym (update-if f key k (some value));
        never = s.shrink ∙ w.never;
        null = ap (λ x. x 0) s.has_key ∙ w.null;
        deleted = ap (λ x. x 1) s.has_key ∙ w.deleted;
      },
      (let g = s.grown in rw s.has_key (omega (arith, g))),
      at_most_double w.laid.shape s.laid.shape less,
    )

remove_absent :
    {b m : ℕ} {h : Table} {f : ℕ → Option ℕ}
    → Holds b m h f
    → (fuel key : ℕ) → 2 ≤ key
    → f key ≡ none
    → hash_remove fuel (2 ^ b) (2 ^ m) h key ≡ some (h, false)
unfolding hash_remove
remove_absent {b} {m} {h} w fuel key big absent =
    let l : ltb key 2 ≡ false = ground (arith, big) in
    let out = absent-NotHit w.laid.shape key (w.values key big ∙ absent) in
    let e =
      find_entry-scan w.laid.shape key
      ∙ ap some (settle_miss (scan h.entries key (route b w.buckets key)) out) in
    rw (hash_remove, l, e) refl

-- Whether the key was there is the second result of a removal, and the table then stands for the map
-- without it, its count is one less if the key was there, and it has at most twice as many entries.
-- The key is above 1, the table holds neither the key 0 nor the key 1, and twice as many entries as
-- the old table has are not more than 2 ^ 24.
pub hash_remove-Holds :
    {b m : ℕ} {h : Table} {f : ℕ → Option ℕ}
    → Holds b m h f
    → (fuel key : ℕ) → 2 ≤ key
    → h.num_entries * 2 ≤ 2 ^ 24
    → (after : Table) × (hash_remove (suc (suc fuel)) (2 ^ b) (2 ^ m) h key
        ≡ some (after, is_there (f key)))
      × Holds b m after (update f key none)
      × (hash_count h ≡ hash_count after + (if is_there (f key) then 1 else 0))
      × (after.num_entries ≤ h.num_entries * 2)
unfolding hash_count
hash_remove-Holds {b} {m} {h} {f} w fuel key big few = elim (Option-cases (f key)) [
  | inl e ↦ (
    h,
    rw e (remove_absent w (suc (suc fuel)) key big e),
    record {
      buckets = w.buckets;
      laid = w.laid;
      least = w.least;
      never = w.never;
      null = w.null;
      deleted = w.deleted;
      values = λ k many. w.values k many ∙ elim (Bool-cases (k == key)) [
        | inl y ↦
            let c : k ≡ key = ground (arith, y) in
            ap f c ∙ e ∙ sym (update-if f key k none ∙ (rw y refl))
        | inr y ↦ sym (update-if f key k none ∙ (rw y refl))
      ];
    },
    rw e (omega arith),
    (omega arith),
  )
  | inr (v, e) ↦
      let (to, above, less, after, same, s) =
        hash_remove_lem w.laid m fuel key v big (w.values key big ∙ e) w.least w.null w.deleted
          w.never (narrow_double w few) in
      (
        after,
        rw e same,
        record {
          buckets = to;
          laid = s.laid;
          least = let l = w.least in omega (arith, l, above);
          values = λ k many.
              s.values k many
              ∙ ap (λ x. if k == key then none else x) (w.values k many)
              ∙ sym (update-if f key k none);
          never = s.shrink ∙ w.never;
          null = ap (λ x. x 0) s.has_key ∙ w.null;
          deleted = ap (λ x. x 1) s.has_key ∙ w.deleted;
        },
        (let g = s.fewer in rw (e, s.has_key) (omega (arith, g))),
        at_most_double w.laid.shape s.laid.shape less,
      )
]

-- A new table stands for the empty map and has no count, where the smallest number of entries is a
-- power of two from 128 to 2 ^ 24 that is not below the size of a bucket.
pub hash_create-Holds :
    (b m : ℕ)
    → b ≤ m
    → 7 ≤ m
    → m ≤ 24
    → Holds b m (hash_create (2 ^ b) (2 ^ m)) (λ k. none)
      × (hash_count (hash_create (2 ^ b) (2 ^ m)) ≡ 0)
unfolding hash_create hash_count
hash_create-Holds b m wide big few =
    let e : hash_create (2 ^ b) (2 ^ m) ≡ empty_table (2 ^ b) (2 ^ m) (2 ^ m) =
      internal_create_rounded (2 ^ b) m big (omega (arith, few)) in
    let c : (m - b) + b ≡ m = omega (arith, wide) in
    let split : 2 ^ (m - b) * 2 ^ b ≡ 2 ^ m = sym (pow_add (m - b) b) ∙ ap (λ x. 2 ^ x) c in
    let narrow : 2 ^ (m - b) * 2 ^ b ≤ 2 ^ 24 = omega (arith, split, pow_mono m 24 few) in
    let large : 128 ≤ 2 ^ (m - b) * 2 ^ b = omega (arith, split, pow_mono 7 m big) in
    let same : hash_create (2 ^ b) (2 ^ m) ≡ empty_table (2 ^ b) (2 ^ m) (2 ^ (m - b) * 2 ^ b) =
      e ∙ ap (empty_table (2 ^ b) (2 ^ m)) (sym split) in
    let equal : (2 ^ (m - b) * 2 ^ b == 2 ^ m) ≡ true = ground (arith, split) in
    subst (λ h. Holds b m h (λ k. none) × (hash_count h ≡ 0)) (sym same)
      (
        record {
          buckets = m - b;
          laid = empty-Laid b (m - b) m (λ k. 0) (λ k. false) narrow large;
          least = omega (arith, c);
          values = empty-lookup b (m - b) m (λ k. 0) (λ k. false) narrow large;
          never = rw equal refl;
          null = refl;
          deleted = refl;
        },
        refl,
      )
