-- ===== src/Examples/HashMaps.antt =====
-- src/hashmap.c on a table of 512 entries in buckets of four, and on one of two buckets.
use qthreads.Hash.{qt_hash64}
use qthreads.HashMap.Doubled.{put-Doubled}
use qthreads.HashMap.Refine.{Holds, hash_create-Holds, hash_put-Holds, hash_remove-Holds}
use qthreads.HashMap.Route.{Shape, home}
use qthreads.HashMap.Scan.{run_of, scan, first_free}
use qthreads.HashMap.Write.{more_hit}
use qthreads.HashMap.State.{Laid}
use qthreads.HashMap.Visit.{live_entries, hash_callback-live, hash_callback-Short}
use qthreads.HashMap.Whole.{find_entry-Whole}
use qthreads.HashMap.{
  Table, hit, miss, more, success, encompassing_power, internal_create, hash_create, hash_put,
  hash_remove, hash_count, hash_callback, one_if, find_entry,
}
use qthreads.Prelude.{
  ℕ, ◌+◌, ◌*◌, ◌^◌, ◌≤◌, ◌<◌, ◌≡◌, ◌≢◌, ◌⊎◌, refl, sym, ◌∙◌, true, false, none, some, arith,
  if◌then◌else◌, ◌==◌, update, length, ap,
}

hash_create-Holds_example :
    Holds 2 9 (hash_create 4 512) (λ k. none) × (hash_count (hash_create 4 512) ≡ 0)
hash_create-Holds_example = hash_create-Holds 2 9 (omega arith) (omega arith) (omega arith)

created : Holds 2 9 (hash_create 4 512) (λ k. none)
created = (hash_create-Holds 2 9 (omega arith) (omega arith) (omega arith)).0

created_entries : (hash_create 4 512).num_entries ≡ 512
unfolding hash_create internal_create encompassing_power
created_entries = refl

hash_put-Holds_example :
    (after : Table) × (hash_put 2 4 512 (hash_create 4 512) 5 7 ≡ some (after, success))
    × Holds 2 9 after (update (λ k. none) 5 (some 7))
    × (hash_count after ≡ hash_count (hash_create 4 512) + 1)
    × (after.num_entries ≤ (hash_create 4 512).num_entries * 2)
hash_put-Holds_example =
    hash_put-Holds created 0 5 7 (omega arith) refl (omega (arith, created_entries))

-- The table after that put.
one_key :
    (h : Table) × Holds 2 9 h (update (λ k. none) 5 (some 7))
    × (h.num_entries ≤ 1024)
    × (hash_count h ≡ 1)
one_key =
    let (after, same, holds, count, few) =
      hash_put-Holds created 0 5 7 (omega arith) refl (omega (arith, created_entries)) in
    let start = (hash_create-Holds 2 9 (omega arith) (omega arith) (omega arith)).1 in
    (after, holds, (omega (arith, few, created_entries)), (omega (arith, count, start)))

hash_remove-Holds_example :
    (after : Table) × (hash_remove 2 4 512 one_key.0 5 ≡ some (after, true))
    × Holds 2 9 after (update (update (λ k. none) 5 (some 7)) 5 none)
    × (hash_count one_key.0 ≡ hash_count after + 1)
    × (after.num_entries ≤ one_key.0.num_entries * 2)
hash_remove-Holds_example = hash_remove-Holds one_key.1 0 5 (omega arith) (omega (arith, one_key.2))

hash_callback-live_example :
    hash_callback one_key.0 ≡ live_entries one_key.0.entries one_key.0.num_entries 0
hash_callback-live_example = hash_callback-live one_key.1.laid one_key.1.null one_key.1.deleted

two_keys :
    (h : Table) × Holds 2 9 h (update (update (λ k. none) 5 (some 7)) 6 (some 8))
    × (hash_count h ≡ 2)
two_keys =
    let (after, same, holds, count, few) =
      hash_put-Holds one_key.1 0 6 8 (omega arith) refl (omega (arith, one_key.2)) in
    let start = one_key.3 in (after, holds, (omega (arith, count, start)))

-- The same with the key 0.
abbrev and_null : Table → Table
and_null h = record h { has_key = λ k. k == 0 }

and_null-Laid : {b n : ℕ} {h : Table} → Laid b n h → Laid b n (and_null h)
and_null-Laid t = record {
  shape = record { masked = t.shape.masked; sized = t.shape.sized; narrow = t.shape.narrow };
  large = t.large;
  placed = t.placed;
  lives = t.lives;
  deads = t.deads;
  grow = t.grow;
  tidy = t.tidy;
  room = t.room;
}

two_population : two_keys.0.population ≡ 2
unfolding hash_count
two_population =
    let w = two_keys.1 in
    let count = two_keys.2 in
    let p = ap one_if w.null in let q = ap one_if w.deleted in omega (arith, count, p, q)

hash_callback-Short_example :
    (length (hash_callback (and_null two_keys.0)) ≡ two_keys.0.population)
    × (length (hash_callback (and_null two_keys.0)) < hash_count (and_null two_keys.0))
hash_callback-Short_example =
    hash_callback-Short (and_null-Laid two_keys.1.laid) (omega arith)
      (omega (arith, two_population))

-- Eight entries, all in use.
abbrev full : Table
full = record {
  entries = λ s. record { key = s + 2; value = s };
  mask = 4;
  num_entries = 8;
  population = 8;
  deletes = 0;
  grow_size = 4;
  shrink_size = 0;
  tidy_up_size = 5;
  value = λ k. 0;
  has_key = λ k. false;
}

find_entry-Whole_example :
    ((t : ℕ) × (find_entry 4 one_key.0 5 ≡ some (hit t))
      × (t < one_key.0.num_entries)
      × ((one_key.0.entries t).key ≡ 5))
    ⊎ ((find_entry 4 one_key.0 5 ≡ some miss)
        × ((s : ℕ) → s < one_key.0.num_entries → (one_key.0.entries s).key ≢ 5))
find_entry-Whole_example = find_entry-Whole one_key.1.laid 5 (omega arith)

-- The first bucket of the key 5 has a removed entry, and the other bucket has the key.
abbrev hidden : Table
hidden = record full {
  entries = λ s. record { key = if s == 0 then 1 else if s == 4 then 5 else s + 10; value = s };
  population = 7;
  deletes = 1;
}

hidden-Shape : Shape 2 1 hidden
hidden-Shape = record { masked = refl; sized = refl; narrow = omega arith }

home_of_5 : home 2 1 5 ≡ 0
unfolding qt_hash64
home_of_5 = refl

hidden-scan : scan hidden.entries 5 (run_of (2 ^ 2) (home 2 1 5 * 2 ^ 2)) ≡ more
hidden-scan = rw home_of_5 refl

hidden-first : first_free hidden.entries (run_of (2 ^ 2) (home 2 1 5 * 2 ^ 2)) ≡ some 0
hidden-first = rw home_of_5 refl

put-Doubled_example :
    (after : Table) × (hash_put 1 4 512 hidden 5 70 ≡ some (after, success))
    × ((after.entries 0).key ≡ 5)
    × ((after.entries 4).key ≡ 5)
    × ◌≢◌ {A = ℕ} 0 4
    × (after.population ≡ 8)
put-Doubled_example =
    put-Doubled hidden-Shape 0 512 5 70 0 4 (omega arith) (λ s e. more_hit (sym hidden-scan ∙ e))
      hidden-first refl refl
