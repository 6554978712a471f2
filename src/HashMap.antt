-- ===== src/HashMap.antt =====
-- src/hashmap.c: the hash map in which src/feb.c and src/syncvar.c keep their words. A table is an
-- array of entries in buckets of `bucketsize`, a bucket being what fits a cache line. The keys 0 and 1
-- mark an entry that was never used and one that was removed; as keys of the caller they are kept
-- beside the array. A call is one step, as it holds the lock of the table.
pub mod Bits
pub mod Cycle
pub mod Scan
pub mod Route
pub mod Write
pub mod Cover
pub mod Tally
pub mod State
pub mod Fill
pub mod Fresh
pub mod Step
pub mod Copy
pub mod Rehash
pub mod Grow
pub mod Remove
pub mod Refine
pub mod Doubled
pub mod Whole
pub mod Visit
use Prim.Native.Nat.{bit_and, bit_or}
use qthreads.Hash.{qt_hash64}
use qthreads.Loop.{word}
use qthreads.Prelude.{
  ℕ, zero, suc, ◌+◌, ◌-◌, ◌*◌, ◌/◌, ◌%◌, ◌^◌, Bool, true, false, ◌||◌, Option, none, some, List, [],
  ◌∷◌, ◌++◌, ◌==◌, ltb, leb, if◌then◌else◌, update,
}

-- `hash_entry`
pub record Entry : Type 0 where
  pub key : ℕ
  pub value : ℕ

-- `qt_hash_s` without its lock. `value` and `has_key` are those of the keys 0 and 1.
pub record Table : Type 0 where
  pub entries : ℕ → Entry
  pub mask : ℕ
  pub num_entries : ℕ
  pub population : ℕ
  pub deletes : ℕ
  pub grow_size : ℕ
  pub shrink_size : ℕ
  pub tidy_up_size : ℕ
  pub value : ℕ → ℕ
  pub has_key : ℕ → Bool

-- `encompassing_power_of_two`, with fuel: a word has 64 bits.
unfoldable pub encompassing_power : ℕ → ℕ → ℕ → ℕ
encompassing_power zero z k = z
encompassing_power (suc fuel) z k =
    let rest = encompassing_power fuel (z * 2) k in if ltb z k then rest else z

-- `qt_hash_internal_create` on a zeroed structure. Up to 2 ^ 24 entries the products with 0.65, 0.8
-- and 0.03 are exact in single precision: these are fractions with 2 ^ 24 and 2 ^ 29 below.
unfoldable pub internal_create : ℕ → ℕ → ℕ → Table
internal_create bucketsize min_entries wanted =
    let rounded =
      if wanted % min_entries == 0 then wanted else wanted + (min_entries - wanted % min_entries) in
    let entries = encompassing_power 64 1 rounded in
    record {
      entries = λ s. record { key = 0; value = 0 };
      mask = (entries - 1) / bucketsize * bucketsize;
      num_entries = entries;
      population = 0;
      deletes = 0;
      grow_size = entries * 10905190 / 2 ^ 24 - 1;
      shrink_size = if entries == min_entries then 0 else entries * 16106127 / 2 ^ 29;
      tidy_up_size = entries * 13421773 / 2 ^ 24 - 1;
      value = λ k. 0;
      has_key = λ k. false;
    }

-- `qt_hash_create`
unfoldable pub hash_create : ℕ → ℕ → Table
hash_create bucketsize min_entries = internal_create bucketsize min_entries 100

-- What looking through some entries gives: the entry of the key, that the key is not there, or
-- that the search goes on.
pub data Probe : Type 0 where
  hit : ℕ → Probe
  miss : Probe
  more : Probe

-- The loop over a bucket, `left` entries from `slot` on.
unfoldable pub find_bucket : (ℕ → Entry) → ℕ → ℕ → ℕ → Probe
find_bucket entries key zero slot = more
find_bucket entries key (suc left) slot =
    let zkey = (entries slot).key in
    let rest = find_bucket entries key left (slot + 1) in
    if zkey == key then hit slot else if zkey == 0 then miss else rest

unfoldable pub first_bucket : Table → ℕ → ℕ
first_bucket h key = bit_and (qt_hash64 key) h.mask

unfoldable pub step_of : ℕ → Table → ℕ → ℕ
step_of bucketsize h key =
    let hashed = qt_hash64 key in
    bit_or (bit_and (bit_or (hashed / 2 ^ 16) (word (hashed * 2 ^ 16))) h.mask) bucketsize

unfoldable pub next_bucket : Table → ℕ → ℕ → ℕ
next_bucket h step bucket = bit_and (word (bucket + step)) h.mask

-- `do ... while (bucket != quit)`, with fuel.
unfoldable pub find_loop : ℕ → ℕ → Table → ℕ → ℕ → ℕ → ℕ → Option Probe
find_loop zero bucketsize h key step quit bucket = none
find_loop (suc fuel) bucketsize h key step quit bucket =
    let next = next_bucket h step bucket in
    let rest = find_loop fuel bucketsize h key step quit next in
    elim (find_bucket h.entries key bucketsize next) [
      | hit slot ↦ some (hit slot)
      | miss ↦ some miss
      | more ↦ if next == quit then some miss else rest
    ]

-- `qt_hash_internal_find` of a key above 1: the entry. The loop has as much fuel as there are entries.
unfoldable pub find_entry : ℕ → Table → ℕ → Option Probe
find_entry bucketsize h key =
    let bucket = first_bucket h key in
    elim (find_bucket h.entries key bucketsize bucket) [
      | hit slot ↦ some (hit slot)
      | miss ↦ some miss
      | more ↦ find_loop h.num_entries bucketsize h key (step_of bucketsize h key) bucket bucket
    ]

-- `qt_hash_get_locked`: 0 is `NULL`. The outer none is that the fuel is used up.
unfoldable pub hash_get : ℕ → Table → ℕ → Option ℕ
hash_get bucketsize h key =
    if ltb key 2
    then some (if h.has_key key then h.value key else 0)
    else elim (find_entry bucketsize h key) [
      | none ↦ none
      | some p ↦ elim p [ hit slot ↦ some (h.entries slot).value | _ ↦ some 0 ]
    ]

-- What looking for a place in some entries gives: the entry of the key, or the first free one.
pub data Place : Type 0 where
  taken : ℕ → Place
  free : Option ℕ → Place

-- The loop over a bucket, with the free entry found so far.
unfoldable pub place_bucket : (ℕ → Entry) → ℕ → ℕ → ℕ → Option ℕ → Place
place_bucket entries key zero slot f = free f
place_bucket entries key (suc left) slot f =
    let zkey = (entries slot).key in
    let first : Option ℕ = elim f [ none ↦ some slot | some g ↦ some g ] in
    let rest = place_bucket entries key left (slot + 1) (if zkey == 1 then first else f) in
    if zkey == key then taken slot else if zkey == 0 then free first else rest

-- `do ... while (f == -1 && bucket != quit)`, with fuel.
unfoldable pub place_loop : ℕ → ℕ → Table → ℕ → ℕ → ℕ → ℕ → Option Place
place_loop zero bucketsize h key step quit bucket = none
place_loop (suc fuel) bucketsize h key step quit bucket =
    let next = next_bucket h step bucket in
    let rest = place_loop fuel bucketsize h key step quit next in
    elim (place_bucket h.entries key bucketsize next none) [
      | taken slot ↦ some (taken slot)
      | free f ↦ elim f [
        | some g ↦ some (free (some g))
        | none ↦ if next == quit then some (free none) else rest
      ]
    ]

-- What a put returns.
pub data Put : Type 0 where
  collision success : Put

-- The first bucket and the others: a key that is there is a collision in the first, and has its
-- value overwritten in another.
pub data Target : Type 0 where
  collides : Target
  overwrites : ℕ → Target
  fills : Option ℕ → Target

unfoldable pub hash_target : ℕ → Table → ℕ → Option Target
hash_target bucketsize h key =
    let bucket = first_bucket h key in
    elim (place_bucket h.entries key bucketsize bucket none) [
      | taken slot ↦ some collides
      | free f ↦ elim f [
        | some g ↦ some (fills (some g))
        | none ↦
            elim (place_loop h.num_entries bucketsize h key (step_of bucketsize h key) bucket
              bucket) [
                | none ↦ none
                | some p ↦ elim p [ taken slot ↦ some (overwrites slot) | free g ↦ some (fills g) ]
              ]
      ]
    ]

-- The end of `qt_hash_put_locked`, and its last lines where an entry that was removed is used again.
unfoldable pub fill_entry : ℕ → ℕ → ℕ → Table → Table
fill_entry slot key value h = record h {
  deletes = if (h.entries slot).key == 1 then h.deletes - 1 else h.deletes;
  entries = update h.entries slot (record { key = key; value = value });
  population = h.population + 1;
}

-- The loop of `brehash` over the entries from `slot` on; `put` stands for `qt_hash_put_locked`. none
-- is that a put has failed.
unfoldable pub copy_entries :
    (Table → ℕ → ℕ → Option (Table × Put)) → Table → ℕ → ℕ → ℕ → Table → Option Table
copy_entries put h zero slot copied d = some d
copy_entries put h (suc left) slot copied d =
    let e = h.entries slot in
    let skip = copy_entries put h left (slot + 1) copied d in
    if ltb 1 e.key
    then elim (put d e.key e.value) [
      | none ↦ none
      | some r ↦ elim r.1 [
        | collision ↦ none
        | success ↦
            if copied + 1 == h.population
            then some r.0
            else copy_entries put h left (slot + 1) (copied + 1) r.0
      ]
    ]
    else skip

abbrev pub one_if : Bool → ℕ
one_if b = if b then 1 else 0

-- `brehash`. The size below which the table shrinks stays as it is.
unfoldable pub brehash : (Table → ℕ → ℕ → Option (Table × Put)) → ℕ → ℕ → ℕ → Table → Option Table
brehash put bucketsize min_entries len h =
    let d = record (internal_create bucketsize min_entries len) {
      value = h.value;
      has_key = h.has_key;
    } in
    let copied = one_if (h.has_key 0) + one_if (h.has_key 1) in
    let full =
      if ltb copied h.population then copy_entries put h h.num_entries 0 copied d else some d in
    elim full [ none ↦ none | some r ↦ some (record r { shrink_size = h.shrink_size }) ]

-- `qt_hash_put_locked`, with fuel for the calls that it makes of itself through `brehash` and by
-- starting again.
unfoldable pub hash_put : ℕ → ℕ → ℕ → Table → ℕ → ℕ → Option (Table × Put)
hash_put zero bucketsize min_entries h key value = none
hash_put (suc fuel) bucketsize min_entries h key value =
    let again : Option Table → Option (Table × Put) =
      λ o. elim o [ none ↦ none | some d ↦ hash_put fuel bucketsize min_entries d key value ] in
    let grown = brehash (hash_put fuel bucketsize min_entries) bucketsize min_entries in
    if ltb key 2
    then some (
        if h.has_key key then (h, collision) else (
          record h { has_key = update h.has_key key true; value = update h.value key value },
          success,
        ))
    else elim (hash_target bucketsize h key) [
      | none ↦ none
      | some o ↦ elim o [
        | collides ↦ some (h, collision)
        | overwrites slot ↦ some (
          record h { entries = update h.entries slot (record { key = key; value = value }) },
          success,
        )
        | fills f ↦ elim f [
          | none ↦ none
          | some slot ↦
              if (h.entries slot).key == 0
              then (if leb h.grow_size h.population
                  then again (grown (h.num_entries * 2) h)
                  else if ltb h.tidy_up_size (h.population + h.deletes)
                  then again (grown h.num_entries h)
                  else some (fill_entry slot key value h, success))
              else some (fill_entry slot key value h, success)
        ]
      ]
    ]

-- `qt_hash_remove_locked`: whether the key was there. `fuel` is for the calls that `brehash` makes.
unfoldable pub hash_remove : ℕ → ℕ → ℕ → Table → ℕ → Option (Table × Bool)
hash_remove fuel bucketsize min_entries h key =
    let grown = brehash (hash_put fuel bucketsize min_entries) bucketsize min_entries in
    let done : Option Table → Option (Table × Bool) =
      λ o. elim o [ none ↦ none | some d ↦ some (d, true) ] in
    if ltb key 2
    then some (
        if h.has_key key
        then (record h { has_key = update h.has_key key false; value = update h.value key 0 }, true)
        else (h, false))
    else elim (find_entry bucketsize h key) [
      | none ↦ none
      | some p ↦ elim p [
        | hit slot ↦
            let e = h.entries slot in
            let left = record h {
              entries = update h.entries slot (record e { key = 1 });
              deletes = h.deletes + 1;
              population = h.population - 1;
            } in
            if leb h.tidy_up_size (left.population + left.deletes)
            then done (grown h.num_entries left)
            else if ltb left.population h.shrink_size
            then done (grown (h.num_entries / 2) left)
            else some (left, true)
        | _ ↦ some (h, false)
      ]
    ]

-- `qt_hash_count`
unfoldable pub hash_count : Table → ℕ
hash_count h = h.population + one_if (h.has_key 0) + one_if (h.has_key 1)

-- The loop of `qt_hash_callback` and of `qt_hash_destroy_deallocate` over the entries from `slot` on:
-- the entries that the function is called with.
unfoldable pub visit_entries : (ℕ → Entry) → ℕ → ℕ → ℕ → ℕ → List Entry
visit_entries entries population zero slot visited = []
visit_entries entries population (suc left) slot visited =
    let e = entries slot in
    let skip = visit_entries entries population left (slot + 1) visited in
    let rest = visit_entries entries population left (slot + 1) (visited + 1) in
    if ltb 1 e.key then e ∷ (if visited + 1 == population then [] else rest) else skip

-- `qt_hash_callback`: the keys and values that the function is called with.
unfoldable pub hash_callback : Table → List Entry
hash_callback h =
    let visited = one_if (h.has_key 0) + one_if (h.has_key 1) in
    (if h.has_key 0 then record { key = 0; value = h.value 0 } ∷ [] else [])
    ++ ((if h.has_key 1 then record { key = 1; value = h.value 1 } ∷ [] else [])
        ++ (if ltb visited h.population
            then visit_entries h.entries h.population h.num_entries 0 visited
            else []))
