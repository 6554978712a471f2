-- ===== src/HashMap/Step.antt =====
-- src/hashmap.c: qt_hash_put_locked with a key that is not in the table, where the table has room.
use native.Mathlib.Nat.{mul-le-mul_right}
use qthreads.HashMap.Fresh.{pow_mono}
use qthreads.HashMap.Fill.{fill_entry-Laid, fill_entry-lookup}
use qthreads.HashMap.Route.{route, hash_target-first_free}
use qthreads.HashMap.Scan.{first_free}
use qthreads.HashMap.State.{Laid, lookup, absent-NotHit, first_free-found}
use qthreads.HashMap.{Table, fills, Put, success, hash_put, hash_target, fill_entry, brehash}
use qthreads.Prelude.{
  ℕ, suc, ◌+◌, ◌-◌, ◌*◌, ◌/◌, ◌^◌, ◌≤◌, ◌<◌, ◌≡◌, refl, ◌∙◌, ap, false, Option, none, some, inl,
  inr, arith, if◌then◌else◌, ◌==◌, ltb, leb, Bool-cases,
}

-- A table with one more key.
pub record Stored (b n : ℕ) (d : Table) (stored v : ℕ) (after : Table) : Type 0 where
  pub laid : Laid b n after
  pub values :
      (k : ℕ)
      → 2 ≤ k
      → lookup (2 ^ b) after k ≡ (if k == stored then some v else lookup (2 ^ b) d k)
  pub grown : after.population ≡ d.population + 1
  pub clean : after.deletes ≤ d.deletes
  pub shrink : after.shrink_size ≡ d.shrink_size
  pub value : after.value ≡ d.value
  pub has_key : after.has_key ≡ d.has_key

pub fill_entry-Stored :
    {b n : ℕ} {h : Table}
    → (t : Laid b n h) → (key value : ℕ) → 2 ≤ key
    → lookup (2 ^ b) h key ≡ none
    → (f : ℕ) → first_free h.entries (route b n key) ≡ some f
    → ((h.entries f).key ≡ 0 → h.population + h.deletes ≤ h.tidy_up_size)
    → Stored b n h key value (fill_entry f key value h)
unfolding fill_entry
fill_entry-Stored t key value big absent f e calm =
    let out = absent-NotHit t.shape key absent in
    record {
      laid = fill_entry-Laid t key value big out f e calm;
      values = fill_entry-lookup t key value big out f e calm;
      grown = refl;
      clean = ground arith;
      shrink = refl;
      value = refl;
      has_key = refl;
    }

-- The rest of a put that has found a free entry.
abbrev pub put_free : ℕ → ℕ → ℕ → Table → ℕ → ℕ → ℕ → Option (Table × Put)
put_free fuel bucketsize min_entries h key value slot =
    let again : Option Table → Option (Table × Put) =
      λ o. elim o [ none ↦ none | some d ↦ hash_put fuel bucketsize min_entries d key value ] in
    let grown = brehash (hash_put fuel bucketsize min_entries) bucketsize min_entries in
    if (h.entries slot).key == 0
    then (if leb h.grow_size h.population
        then again (grown (h.num_entries * 2) h)
        else if ltb h.tidy_up_size (h.population + h.deletes)
        then again (grown h.num_entries h)
        else some (fill_entry slot key value h, success))
    else some (fill_entry slot key value h, success)

pub hash_put-free :
    (fuel bucketsize min_entries : ℕ) (h : Table) (key value slot : ℕ)
    → 2 ≤ key
    → hash_target bucketsize h key ≡ some (fills (some slot))
    → hash_put (suc fuel) bucketsize min_entries h key value
      ≡ put_free fuel bucketsize min_entries h key value slot
unfolding hash_put
hash_put-free fuel bucketsize min_entries h key value slot big e =
    let l : ltb key 2 ≡ false = ground (arith, big) in rw (hash_put, l, e) refl

-- A put with a free entry at hand.
pub put_found :
    {b n : ℕ} {h : Table}
    → (t : Laid b n h) → (fuel min_entries key value : ℕ) → 2 ≤ key
    → lookup (2 ^ b) h key ≡ none
    → (f : ℕ) × (first_free h.entries (route b n key) ≡ some f)
      × (hash_put (suc fuel) (2 ^ b) min_entries h key value
          ≡ put_free fuel (2 ^ b) min_entries h key value f)
put_found {b} {n} {h} t fuel min_entries key value big absent =
    let r = first_free-found t key in
    (
      r.0,
      r.1,
      hash_put-free fuel (2 ^ b) min_entries h key value r.0 big (
          hash_target-first_free t.shape key (absent-NotHit t.shape key absent)
          ∙ ap (λ x. some (fills x)) r.1),
    )

-- What the copy of a table needs of the put that it calls, of which the new table may be made
-- larger: it has from 2 ^ lo to 2 ^ hi buckets, and fewer than `cap` keys before a put.
abbrev pub PutsInto : ℕ → ℕ → ℕ → ℕ → (Table → ℕ → ℕ → Option (Table × Put)) → Type 0
PutsInto b lo hi cap put =
    (c : ℕ) (d : Table) (key value : ℕ)
    → lo ≤ c
    → c ≤ hi
    → Laid b c d
    → 2 ≤ key
    → lookup (2 ^ b) d key ≡ none
    → d.population < cap
    → d.deletes ≡ 0
    → d.has_key 0 ≡ false
    → d.has_key 1 ≡ false
    → (to : ℕ) × (lo ≤ to)
      × (to ≤ hi)
      × (after : Table) × (put d key value ≡ some (after, success))
      × Stored b to d key value after

pub hash_put_roomy :
    (b n fuel min_entries : ℕ) (d : Table) (key value : ℕ)
    → Laid b n d
    → 2 ≤ key
    → lookup (2 ^ b) d key ≡ none
    → d.population < d.grow_size
    → d.population + d.deletes ≤ d.tidy_up_size
    → (after : Table) × (hash_put (suc fuel) (2 ^ b) min_entries d key value
        ≡ some (after, success))
      × Stored b n d key value after
hash_put_roomy b n fuel min_entries d key value t big absent room calm =
    let r = put_found t fuel min_entries key value big absent in
    let g : leb d.grow_size d.population ≡ false = ground (arith, room) in
    let c : ltb d.tidy_up_size (d.population + d.deletes) ≡ false = ground (arith, calm) in
    (
      fill_entry r.0 key value d,
      r.2 ∙ elim (Bool-cases ((d.entries r.0).key == 0)) [
        | inl z ↦ rw (z, g, c) refl
        | inr z ↦ rw z refl
      ],
      fill_entry-Stored t key value big absent r.0 r.1 (λ z. calm),
    )

pub size_mono : (b c d : ℕ) → c ≤ d → 2 ^ c * 2 ^ b ≤ 2 ^ d * 2 ^ b
size_mono b c d h = mul-le-mul_right (2 ^ b) (pow_mono c d h)

pub roomy-PutsInto :
    (b lo hi cap fuel min_entries : ℕ)
    → cap ≤ 2 ^ lo * 2 ^ b * 10905190 / 2 ^ 24 - 1
    → PutsInto b lo hi cap (hash_put (suc fuel) (2 ^ b) min_entries)
roomy-PutsInto b lo hi cap fuel min_entries fits c d key value up down t big absent few clean null
      deleted =
    let s = size_mono b lo c up in
    let room : d.population < d.grow_size = omega (arith, few, fits, s, t.grow) in
    let r =
      hash_put_roomy b c fuel min_entries d key value t big absent room
        (omega (arith, room, clean, t.grow, t.tidy)) in
    (c, up, down, r.0, r.1, r.2)
