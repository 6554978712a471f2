-- ===== src/HashMap/Route.antt =====
-- The order in which src/hashmap.c looks through the entries for a key: bucket after bucket, each
-- bucket once, until the first comes round again.
use Prim.Native.Nat.{bit_and, bit_or}
use native.Mathlib.Nat.{mod-lt, mod-eq_of_lt, mul-div_cancel, mul-le-mul_right}
use qthreads.Hash.{qt_hash64}
use qthreads.Loop.{word}
use qthreads.HashMap.Bits.{and_mask, or_bit, pow_pos}
use qthreads.HashMap.Cycle.{place, place_next, place_turn, place_away}
use qthreads.HashMap.{
  Table, Probe, hit, miss, more, Place, taken, free, first_bucket, step_of, next_bucket, find_loop,
  find_entry, place_loop, hash_target, fills, overwrites, collides,
}
use qthreads.HashMap.Scan.{
  run_of, scan, settle, first_free, NotHit, scan-append, first_free-append, find_bucket-scan,
  place_bucket-first_free, NotHit-append_front, NotHit-append_back,
}
use qthreads.Prelude.{
  ℕ, zero, suc, ◌+◌, ◌-◌, ◌*◌, ◌/◌, ◌%◌, ◌^◌, ◌≤◌, ◌<◌, ◌≡◌, refl, sym, ◌∙◌, ap, subst, true, false,
  Option, none, some, List, [], ◌++◌, ◌==◌, if◌then◌else◌, inl, inr, arith, Bool-cases,
}

-- A table of 2 ^ n buckets of 2 ^ b entries.
pub record Shape (b n : ℕ) (h : Table) : Type 0 where
  pub masked : h.mask ≡ (2 ^ n - 1) * 2 ^ b
  pub sized : h.num_entries ≡ 2 ^ n * 2 ^ b
  pub narrow : 2 ^ n * 2 ^ b ≤ 2 ^ 24

-- The bucket of a key, and the buckets from one to the next.
abbrev pub home : ℕ → ℕ → ℕ → ℕ
home b n key = qt_hash64 key / 2 ^ b % 2 ^ n

abbrev pub mixed : ℕ → ℕ → ℕ → ℕ
mixed b n key = bit_or (qt_hash64 key / 2 ^ 16) (word (qt_hash64 key * 2 ^ 16)) / 2 ^ b % 2 ^ n

abbrev pub stride : ℕ → ℕ → ℕ → ℕ
stride b n key = mixed b n key + (1 - mixed b n key % 2)

pub stride_odd : (b n key : ℕ) → stride b n key % 2 ≡ 1
stride_odd b n key = omega arith

stride_le : (b n key : ℕ) → stride b n key ≤ 2 ^ n
stride_le b n key =
    let h =
      mod-lt (bit_or (qt_hash64 key / 2 ^ 16) (word (qt_hash64 key * 2 ^ 16)) / 2 ^ b)
        (pow_pos n) in
    omega (arith, h)

-- The place before the first step.
pub place-home :
    (b n key : ℕ) → place n (home b n key) (stride b n key) 0 * 2 ^ b ≡ home b n key * 2 ^ b
place-home b n key =
    let none_added : home b n key + 0 * stride b n key ≡ home b n key = omega arith in
    ap (λ y. y % 2 ^ n * 2 ^ b) none_added
    ∙ ap (λ y. y * 2 ^ b) (mod-eq_of_lt (mod-lt (qt_hash64 key / 2 ^ b) (pow_pos n)))

-- The entries of the buckets after `i` steps and later.
abbrev pub round : ℕ → ℕ → ℕ → ℕ → ℕ → List ℕ
round b n key i zero = []
round b n key i (suc left) =
    run_of (2 ^ b) (place n (home b n key) (stride b n key) i * 2 ^ b) ++ round b n key (i + 1) left

abbrev pub route : ℕ → ℕ → ℕ → List ℕ
route b n key = run_of (2 ^ b) (home b n key * 2 ^ b) ++ round b n key 1 (2 ^ n)

-- The outcome of one bucket, and of what follows it.
join_probe :
    (p q : Probe) (rest : Option Probe)
    → rest ≡ some (settle q)
    → elim p [ hit slot ↦ some (hit slot) | miss ↦ some miss | more ↦ rest ]
      ≡ some (settle (elim p [ hit slot ↦ hit slot | miss ↦ miss | more ↦ q ]))
join_probe (hit slot) q rest e = refl
join_probe miss q rest e = refl
join_probe more q rest e = e

-- The same for the search for a free entry.
join_free :
    (f g : Option ℕ) (rest : Option Place)
    → (f ≡ none → rest ≡ some (free g))
    → elim f [ some s ↦ some (free (some s)) | none ↦ rest ]
      ≡ some (free (elim f [ none ↦ g | some s ↦ some s ]))
join_free none g rest e = e refl
join_free (some s) g rest e = refl

join_target :
    (f g : Option ℕ) (rest : Option Place)
    → (f ≡ none → rest ≡ some (free g))
    → elim f [
      | some s ↦ some (fills (some s))
      | none ↦ elim rest [
        | none ↦ none
        | some p ↦ elim p [ taken slot ↦ some (overwrites slot) | free x ↦ some (fills x) ]
      ]
    ]
      ≡ some (fills (elim f [ none ↦ g | some s ↦ some s ]))
join_target none g rest e = rw (e refl) refl
join_target (some s) g rest e = refl

-- One round of the loop over the buckets, where the next bucket is known.
find_loop_step :
    (fuel bucketsize key step quit bucket next : ℕ) (h : Table)
    → next_bucket h step bucket ≡ next
    → find_loop (suc fuel) bucketsize h key step quit bucket
      ≡ elim (scan h.entries key (run_of bucketsize next)) [
        | hit slot ↦ some (hit slot)
        | miss ↦ some miss
        | more ↦ if next == quit then some miss else find_loop fuel bucketsize h key step quit next
      ]
unfolding find_loop
find_loop_step fuel bucketsize key step quit bucket next h e =
    subst
      (λ x.
        find_loop (suc fuel) bucketsize h key step quit bucket
        ≡ elim (scan h.entries key (run_of bucketsize x)) [
          | hit slot ↦ some (hit slot)
          | miss ↦ some miss
          | more ↦ if x == quit then some miss else find_loop fuel bucketsize h key step quit x
        ])
      e
      (ap
        (λ p. elim p [
          | hit slot ↦ some (hit slot)
          | miss ↦ some miss
          | more ↦
              if next_bucket h step bucket == quit
              then some miss
              else find_loop fuel bucketsize h key step quit (next_bucket h step bucket)
        ])
        (find_bucket-scan h.entries key bucketsize (next_bucket h step bucket)))

find_entry_step :
    (bucketsize key bucket step : ℕ) (h : Table)
    → first_bucket h key ≡ bucket
    → step_of bucketsize h key ≡ step
    → find_entry bucketsize h key ≡ elim (scan h.entries key (run_of bucketsize bucket)) [
      | hit slot ↦ some (hit slot)
      | miss ↦ some miss
      | more ↦ find_loop h.num_entries bucketsize h key step bucket bucket
    ]
unfolding find_entry
find_entry_step bucketsize key bucket step h e g =
    subst
      (λ x. find_entry bucketsize h key ≡ elim (scan h.entries key (run_of bucketsize x)) [
        | hit slot ↦ some (hit slot)
        | miss ↦ some miss
        | more ↦ find_loop h.num_entries bucketsize h key step x x
      ])
      e
      (subst
        (λ y.
          find_entry bucketsize h key
          ≡ elim (scan h.entries key (run_of bucketsize (first_bucket h key))) [
            | hit slot ↦ some (hit slot)
            | miss ↦ some miss
            | more ↦
                find_loop h.num_entries bucketsize h key y (first_bucket h key) (first_bucket h key)
          ])
        g
        (ap
          (λ p. elim p [
            | hit slot ↦ some (hit slot)
            | miss ↦ some miss
            | more ↦
                find_loop h.num_entries bucketsize h key (step_of bucketsize h key)
                  (first_bucket h key) (first_bucket h key)
          ])
          (find_bucket-scan h.entries key bucketsize (first_bucket h key))))

place_loop_step :
    (fuel bucketsize key step quit bucket next : ℕ) (h : Table)
    → next_bucket h step bucket ≡ next
    → NotHit h.entries key (run_of bucketsize next)
    → place_loop (suc fuel) bucketsize h key step quit bucket
      ≡ elim (first_free h.entries (run_of bucketsize next)) [
        | some s ↦ some (free (some s))
        | none ↦
            if next == quit
            then some (free none)
            else place_loop fuel bucketsize h key step quit next
      ]
unfolding place_loop
place_loop_step fuel bucketsize key step quit bucket next h e here =
    subst
      (λ x.
        place_loop (suc fuel) bucketsize h key step quit bucket
        ≡ elim (first_free h.entries (run_of bucketsize x)) [
          | some s ↦ some (free (some s))
          | none ↦
              if x == quit then some (free none) else place_loop fuel bucketsize h key step quit x
        ])
      e
      (ap
        (λ p. elim p [
          | taken slot ↦ some (taken slot)
          | free f ↦ elim f [
            | some g ↦ some (free (some g))
            | none ↦
                if next_bucket h step bucket == quit
                then some (free none)
                else place_loop fuel bucketsize h key step quit (next_bucket h step bucket)
          ]
        ])
        (place_bucket-first_free h.entries key bucketsize (next_bucket h step bucket)
          (subst (λ x. NotHit h.entries key (run_of bucketsize x)) (sym e) here)))

pub target_step :
    (bucketsize key bucket step : ℕ) (h : Table)
    → first_bucket h key ≡ bucket
    → step_of bucketsize h key ≡ step
    → NotHit h.entries key (run_of bucketsize bucket)
    → hash_target bucketsize h key ≡ elim (first_free h.entries (run_of bucketsize bucket)) [
      | some s ↦ some (fills (some s))
      | none ↦ elim (place_loop h.num_entries bucketsize h key step bucket bucket) [
        | none ↦ none
        | some p ↦ elim p [ taken slot ↦ some (overwrites slot) | free x ↦ some (fills x) ]
      ]
    ]
unfolding hash_target
target_step bucketsize key bucket step h e g here =
    subst
      (λ x. hash_target bucketsize h key ≡ elim (first_free h.entries (run_of bucketsize x)) [
        | some s ↦ some (fills (some s))
        | none ↦ elim (place_loop h.num_entries bucketsize h key step x x) [
          | none ↦ none
          | some p ↦ elim p [ taken slot ↦ some (overwrites slot) | free x ↦ some (fills x) ]
        ]
      ])
      e
      (subst
        (λ y.
          hash_target bucketsize h key
          ≡ elim (first_free h.entries (run_of bucketsize (first_bucket h key))) [
            | some s ↦ some (fills (some s))
            | none ↦
                elim (place_loop h.num_entries bucketsize h key y (first_bucket h key)
                  (first_bucket h key)) [
                    | none ↦ none
                    | some p ↦ elim p [
                      | taken slot ↦ some (overwrites slot)
                      | free x ↦ some (fills x)
                    ]
                  ]
          ])
        g
        (ap
          (λ (p : Place). elim p [
            | taken slot ↦ some collides
            | free f ↦ elim f [
              | some s ↦ some (fills (some s))
              | none ↦
                  elim (place_loop h.num_entries bucketsize h key (step_of bucketsize h key)
                    (first_bucket h key) (first_bucket h key)) [
                      | none ↦ none
                      | some p ↦ elim p [
                        | taken slot ↦ some (overwrites slot)
                        | free x ↦ some (fills x)
                      ]
                    ]
            ]
          ])
          (place_bucket-first_free h.entries key bucketsize (first_bucket h key)
            (subst (λ x. NotHit h.entries key (run_of bucketsize x)) (sym e) here))))

module _ {b n : ℕ} {h : Table} (s : Shape b n h) (key : ℕ) where
  pub first_bucket_lem : first_bucket h key ≡ home b n key * 2 ^ b
  unfolding first_bucket
  first_bucket_lem = ap (bit_and (qt_hash64 key)) s.masked ∙ and_mask b n (qt_hash64 key)

  pub step_of_lem : step_of (2 ^ b) h key ≡ stride b n key * 2 ^ b
  unfolding step_of
  step_of_lem =
      let mix : ℕ = bit_or (qt_hash64 key / 2 ^ 16) (word (qt_hash64 key * 2 ^ 16)) in
      ap (λ m. bit_or (bit_and mix m) (2 ^ b)) s.masked
      ∙ ap (λ x. bit_or x (2 ^ b)) (and_mask b n mix)
      ∙ or_bit b (mixed b n key)

  next_bucket_lem :
      (i : ℕ)
      → next_bucket h (stride b n key * 2 ^ b) (place n (home b n key) (stride b n key) i * 2 ^ b)
        ≡ place n (home b n key) (stride b n key) (i + 1) * 2 ^ b
  unfolding next_bucket word
  next_bucket_lem i =
      let p : ℕ = place n (home b n key) (stride b n key) i in
      let x : ℕ = stride b n key in
      let lo = mod-lt (home b n key + i * x) (pow_pos n) in
      let sum : p * 2 ^ b + x * 2 ^ b ≡ (p + x) * 2 ^ b = grind arith in
      let few : p + x ≤ 2 ^ n + 2 ^ n = omega (arith, lo, stride_le b n key) in
      let bound = mul-le-mul_right (2 ^ b) few in
      let twice : (2 ^ n + 2 ^ n) * 2 ^ b ≡ 2 ^ n * 2 ^ b + 2 ^ n * 2 ^ b = grind arith in
      let fits : p * 2 ^ b + x * 2 ^ b < 2 ^ 64 = omega (arith, sum, bound, twice, s.narrow) in
      ap (bit_and ((p * 2 ^ b + x * 2 ^ b) % 2 ^ 64)) s.masked
      ∙ ap (λ y. bit_and y ((2 ^ n - 1) * 2 ^ b)) (mod-eq_of_lt fits ∙ sum)
      ∙ and_mask b n ((p + x) * 2 ^ b)
      ∙ ap (λ y. y % 2 ^ n * 2 ^ b) (mul-div_cancel (p + x) (pow_pos b))
      ∙ ap (λ y. y * 2 ^ b) (place_next n (home b n key) x i)

  -- The test for the end of the loop.
  quit_last :
      (place n (home b n key) (stride b n key) (2 ^ n) * 2 ^ b == home b n key * 2 ^ b) ≡ true
  quit_last =
      let e =
        ap (λ y. y * 2 ^ b)
          (place_turn n (home b n key) (stride b n key)
            (mod-lt (qt_hash64 key / 2 ^ b) (pow_pos n))) in
      ground (arith, e)

  quit_before :
      (i : ℕ)
      → 0 < i
      → i < 2 ^ n
      → (place n (home b n key) (stride b n key) i * 2 ^ b == home b n key * 2 ^ b) ≡ false
  quit_before i pos few =
      elim (Bool-cases
        (place n (home b n key) (stride b n key) i * 2 ^ b == home b n key * 2 ^ b)) [
          | inr f ↦ f
          | inl t ↦
              let same : place n (home b n key) (stride b n key) i * 2 ^ b ≡ home b n key * 2 ^ b =
                ground (arith, t) in
              let e =
                sym (mul-div_cancel (place n (home b n key) (stride b n key) i) (pow_pos b))
                ∙ ap (λ y. y / 2 ^ b) same
                ∙ mul-div_cancel (home b n key) (pow_pos b) in
              absurd (
                place_away n (home b n key) (stride b n key) i (stride_odd b n key)
                  (mod-lt (qt_hash64 key / 2 ^ b) (pow_pos n)) pos few e)
        ]

  find_loop-scan :
      (fuel i left : ℕ)
      → i + suc left ≡ 2 ^ n
      → left < fuel
      → find_loop fuel
          (2 ^ b)
          h
          key
          (stride b n key * 2 ^ b)
          (home b n key * 2 ^ b)
          (place n (home b n key) (stride b n key) i * 2 ^ b)
        ≡ some (settle (scan h.entries key (round b n key (i + 1) (suc left))))
  unfolding find_loop
  find_loop-scan zero i left e enough = absurd (omega arith)
  find_loop-scan (suc fuel) i zero e enough =
      let slot : ℕ = place n (home b n key) (stride b n key) (i + 1) * 2 ^ b in
      let last : (slot == home b n key * 2 ^ b) ≡ true =
        ap (λ j. place n (home b n key) (stride b n key) j * 2 ^ b == home b n key * 2 ^ b)
          (let c : i + 1 ≡ 2 ^ n = omega (arith, e) in c)
        ∙ quit_last in
      find_loop_step fuel (2 ^ b) key (stride b n key * 2 ^ b) (home b n key * 2 ^ b)
        (place n (home b n key) (stride b n key) i * 2 ^ b) slot h (next_bucket_lem i)
      ∙ join_probe (scan h.entries key (run_of (2 ^ b) slot)) more
          (if slot == home b n key * 2 ^ b
            then some miss
            else find_loop fuel (2 ^ b) h key (stride b n key * 2 ^ b) (home b n key * 2 ^ b) slot)
          (rw last refl)
      ∙ ap (λ x. some (settle x)) (sym (scan-append h.entries key (run_of (2 ^ b) slot) []))
  find_loop-scan (suc fuel) i (suc left) e enough =
      let slot : ℕ = place n (home b n key) (stride b n key) (i + 1) * 2 ^ b in
      let before = quit_before (i + 1) (omega arith) (omega (arith, e)) in
      let m : List ℕ = round b n key (i + 1 + 1) (suc left) in
      find_loop_step fuel (2 ^ b) key (stride b n key * 2 ^ b) (home b n key * 2 ^ b)
        (place n (home b n key) (stride b n key) i * 2 ^ b) slot h (next_bucket_lem i)
      ∙ join_probe (scan h.entries key (run_of (2 ^ b) slot)) (scan h.entries key m)
          (if slot == home b n key * 2 ^ b
            then some miss
            else find_loop fuel (2 ^ b) h key (stride b n key * 2 ^ b) (home b n key * 2 ^ b) slot)
          (rw before (find_loop-scan fuel (i + 1) left (omega (arith, e)) (omega (arith, enough))))
      ∙ ap (λ x. some (settle x)) (sym (scan-append h.entries key (run_of (2 ^ b) slot) m))

  whole_turn : 2 ^ n ≡ suc (2 ^ n - 1)
  whole_turn = let h = pow_pos n in omega (arith, h)

  enough_fuel : 2 ^ n - 1 < h.num_entries
  enough_fuel =
      let one : 1 ≤ 2 ^ b = pow_pos b in
      let k = mul-le-mul_right (2 ^ n) one in
      let c : 2 ^ n * 2 ^ b ≡ 2 ^ b * 2 ^ n = grind arith in
      let p = pow_pos n in omega (arith, k, s.sized, c, p)

  -- The search of the code is the search along the route of the key.
  pub find_entry-scan :
      find_entry (2 ^ b) h key ≡ some (settle (scan h.entries key (route b n key)))
  unfolding find_entry
  find_entry-scan =
      let bucket : ℕ = home b n key * 2 ^ b in
      let m : List ℕ = round b n key 1 (2 ^ n) in
      find_entry_step (2 ^ b) key bucket (stride b n key * 2 ^ b) h first_bucket_lem step_of_lem
      ∙ join_probe (scan h.entries key (run_of (2 ^ b) bucket)) (scan h.entries key m)
          (find_loop h.num_entries (2 ^ b) h key (stride b n key * 2 ^ b) bucket bucket)
          (ap (find_loop h.num_entries (2 ^ b) h key (stride b n key * 2 ^ b) bucket)
              (sym (place-home b n key))
            ∙ find_loop-scan h.num_entries 0 (2 ^ n - 1) (omega (arith, whole_turn)) enough_fuel
            ∙ ap (λ y. some (settle (scan h.entries key (round b n key 1 y)))) (sym whole_turn))
      ∙ ap (λ x. some (settle x)) (sym (scan-append h.entries key (run_of (2 ^ b) bucket) m))

  place_loop-first_free :
      (fuel i left : ℕ)
      → i + suc left ≡ 2 ^ n
      → left < fuel
      → NotHit h.entries key (round b n key (i + 1) (suc left))
      → place_loop fuel
          (2 ^ b)
          h
          key
          (stride b n key * 2 ^ b)
          (home b n key * 2 ^ b)
          (place n (home b n key) (stride b n key) i * 2 ^ b)
        ≡ some (free (first_free h.entries (round b n key (i + 1) (suc left))))
  unfolding place_loop
  place_loop-first_free zero i left e enough absent = absurd (omega arith)
  place_loop-first_free (suc fuel) i zero e enough absent =
      let slot : ℕ = place n (home b n key) (stride b n key) (i + 1) * 2 ^ b in
      let last : (slot == home b n key * 2 ^ b) ≡ true =
        ap (λ j. place n (home b n key) (stride b n key) j * 2 ^ b == home b n key * 2 ^ b)
          (let c : i + 1 ≡ 2 ^ n = omega (arith, e) in c)
        ∙ quit_last in
      let here = NotHit-append_front h.entries key (run_of (2 ^ b) slot) [] absent in
      place_loop_step fuel (2 ^ b) key (stride b n key * 2 ^ b) (home b n key * 2 ^ b)
        (place n (home b n key) (stride b n key) i * 2 ^ b) slot h (next_bucket_lem i) here
      ∙ join_free (first_free h.entries (run_of (2 ^ b) slot)) none
          (if slot == home b n key * 2 ^ b
            then some (free none)
            else place_loop fuel (2 ^ b) h key (stride b n key * 2 ^ b) (home b n key * 2 ^ b) slot)
          (λ c. rw last refl)
      ∙ ap (λ x. some (free x)) (sym (first_free-append h.entries (run_of (2 ^ b) slot) []))
  place_loop-first_free (suc fuel) i (suc left) e enough absent =
      let slot : ℕ = place n (home b n key) (stride b n key) (i + 1) * 2 ^ b in
      let before = quit_before (i + 1) (omega arith) (omega (arith, e)) in
      let m : List ℕ = round b n key (i + 1 + 1) (suc left) in
      let here = NotHit-append_front h.entries key (run_of (2 ^ b) slot) m absent in
      place_loop_step fuel (2 ^ b) key (stride b n key * 2 ^ b) (home b n key * 2 ^ b)
        (place n (home b n key) (stride b n key) i * 2 ^ b) slot h (next_bucket_lem i) here
      ∙ join_free (first_free h.entries (run_of (2 ^ b) slot)) (first_free h.entries m)
          (if slot == home b n key * 2 ^ b
            then some (free none)
            else place_loop fuel (2 ^ b) h key (stride b n key * 2 ^ b) (home b n key * 2 ^ b) slot)
          (λ c. rw before (
            place_loop-first_free fuel (i + 1) left (omega (arith, e)) (omega (arith, enough))
              (NotHit-append_back h.entries key (run_of (2 ^ b) slot) m absent c)))
      ∙ ap (λ x. some (free x)) (sym (first_free-append h.entries (run_of (2 ^ b) slot) m))

  -- For a key that is not in the table, the code finds the first free entry along its route.
  pub hash_target-first_free :
      NotHit h.entries key (route b n key)
      → hash_target (2 ^ b) h key ≡ some (fills (first_free h.entries (route b n key)))
  unfolding hash_target
  hash_target-first_free absent =
      let bucket : ℕ = home b n key * 2 ^ b in
      let m : List ℕ = round b n key 1 (2 ^ n) in
      let here = NotHit-append_front h.entries key (run_of (2 ^ b) bucket) m absent in
      target_step (2 ^ b) key bucket (stride b n key * 2 ^ b) h first_bucket_lem step_of_lem here
      ∙ join_target (first_free h.entries (run_of (2 ^ b) bucket)) (first_free h.entries m)
          (place_loop h.num_entries (2 ^ b) h key (stride b n key * 2 ^ b) bucket bucket)
          (λ c.
            ap (place_loop h.num_entries (2 ^ b) h key (stride b n key * 2 ^ b) bucket)
              (sym (place-home b n key))
            ∙ place_loop-first_free h.num_entries 0 (2 ^ n - 1) (omega (arith, whole_turn))
                enough_fuel
                (subst (λ y. NotHit h.entries key (round b n key 1 y)) whole_turn
                  (NotHit-append_back h.entries key (run_of (2 ^ b) bucket) m absent c))
            ∙ ap (λ y. some (free (first_free h.entries (round b n key 1 y)))) (sym whole_turn))
      ∙ ap (λ x. some (fills x)) (sym (first_free-append h.entries (run_of (2 ^ b) bucket) m))
