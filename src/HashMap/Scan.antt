-- ===== src/HashMap/Scan.antt =====
-- The searches of src/hashmap.c as searches along a list of entries.
use qthreads.HashMap.{Entry, Probe, hit, miss, more, find_bucket, free, place_bucket}
use qthreads.Prelude.{
  ℕ, zero, suc, ◌+◌, ◌≡◌, ◌≢◌, refl, ◌∙◌, ap, false, Option, none, some, List, [], ◌∷◌, ◌++◌, ◌==◌,
  if◌then◌else◌, inl, inr, arith, Bool-cases,
}

-- `left` entries from `slot` on.
abbrev pub run_of : ℕ → ℕ → List ℕ
run_of zero slot = []
run_of (suc left) slot = slot ∷ run_of left (slot + 1)

-- The search for a key along a list.
abbrev pub scan : (ℕ → Entry) → ℕ → List ℕ → Probe
scan entries key [] = more
scan entries key (s ∷ l) =
    let rest = scan entries key l in
    if (entries s).key == key then hit s else if (entries s).key == 0 then miss else rest

-- What a search that goes on to the end finds.
abbrev pub settle : Probe → Probe
settle (hit s) = hit s
settle miss = miss
settle more = miss

-- The first entry of a list that holds no key.
abbrev pub first_free : (ℕ → Entry) → List ℕ → Option ℕ
first_free entries [] = none
first_free entries (s ∷ l) =
    let rest = first_free entries l in
    if (entries s).key == 0 then some s else if (entries s).key == 1 then some s else rest

abbrev pub NotHit : (ℕ → Entry) → ℕ → List ℕ → Type 0
NotHit entries key l = (s : ℕ) → scan entries key l ≢ hit s

pub scan-append :
    (entries : ℕ → Entry) (key : ℕ) (l m : List ℕ)
    → scan entries key (l ++ m)
      ≡ elim (scan entries key l) [ hit s ↦ hit s | miss ↦ miss | more ↦ scan entries key m ]
scan-append entries key [] m = refl
scan-append entries key (s ∷ l) m = elim (Bool-cases ((entries s).key == key)) [
  | inl t ↦ rw t refl
  | inr f ↦ elim (Bool-cases ((entries s).key == 0)) [
    | inl t ↦ rw (f, t) refl
    | inr g ↦ rw (f, g) (scan-append entries key l m)
  ]
]

pub first_free-append :
    (entries : ℕ → Entry) (l m : List ℕ)
    → first_free entries (l ++ m)
      ≡ elim (first_free entries l) [ none ↦ first_free entries m | some s ↦ some s ]
first_free-append entries [] m = refl
first_free-append entries (s ∷ l) m = elim (Bool-cases ((entries s).key == 0)) [
  | inl t ↦ rw t refl
  | inr f ↦ elim (Bool-cases ((entries s).key == 1)) [
    | inl t ↦ rw (f, t) refl
    | inr g ↦ rw (f, g) (first_free-append entries l m)
  ]
]

pub find_bucket-scan :
    (entries : ℕ → Entry) (key left slot : ℕ)
    → find_bucket entries key left slot ≡ scan entries key (run_of left slot)
unfolding find_bucket
find_bucket-scan entries key zero slot = refl
find_bucket-scan entries key (suc left) slot =
    ap
      (λ p.
        if (entries slot).key == key then hit slot else if (entries slot).key == 0 then miss else p)
      (find_bucket-scan entries key left (slot + 1))

-- A list without the key: the rest of it is so too where its first entry is in use.
NotHit-tail :
    (entries : ℕ → Entry) (key s : ℕ) (l : List ℕ)
    → NotHit entries key (s ∷ l)
    → (entries s).key ≢ 0
    → NotHit entries key l × (((entries s).key == key) ≡ false)
NotHit-tail entries key s l h used = elim (Bool-cases ((entries s).key == key)) [
  | inl t ↦ absurd (h s (rw t refl))
  | inr f ↦ (
    (λ r e. h r (let g : ((entries s).key == 0) ≡ false = ground (arith, used) in rw (f, g) e)),
    f,
  )
]

NotHit-head :
    (entries : ℕ → Entry) (key s : ℕ) (l : List ℕ)
    → NotHit entries key (s ∷ l)
    → ((entries s).key == key) ≡ false
NotHit-head entries key s l h = elim (Bool-cases ((entries s).key == key)) [
  | inl t ↦ absurd (h s (rw t refl))
  | inr f ↦ f
]

-- A free entry has been found: the rest of the bucket changes nothing.
place_bucket_found :
    (entries : ℕ → Entry) (key left slot g : ℕ)
    → NotHit entries key (run_of left slot)
    → place_bucket entries key left slot (some g) ≡ free (some g)
unfolding place_bucket
place_bucket_found entries key zero slot g h = refl
place_bucket_found entries key (suc left) slot g h =
    let f = NotHit-head entries key slot (run_of left (slot + 1)) h in
    elim (Bool-cases ((entries slot).key == 0)) [
      | inl t ↦ rw (f, t) refl
      | inr z ↦
          let rest =
            (NotHit-tail entries key slot (run_of left (slot + 1)) h
              (λ e. ground (arith, z, e))).0 in
          let ih = place_bucket_found entries key left (slot + 1) g rest in
          elim (Bool-cases ((entries slot).key == 1)) [
            | inl o ↦ rw (f, z, o) ih
            | inr o ↦ rw (f, z, o) ih
          ]
    ]

pub place_bucket-first_free :
    (entries : ℕ → Entry) (key left slot : ℕ)
    → NotHit entries key (run_of left slot)
    → place_bucket entries key left slot none ≡ free (first_free entries (run_of left slot))
unfolding place_bucket
place_bucket-first_free entries key zero slot h = refl
place_bucket-first_free entries key (suc left) slot h =
    let f = NotHit-head entries key slot (run_of left (slot + 1)) h in
    elim (Bool-cases ((entries slot).key == 0)) [
      | inl t ↦ rw (f, t) refl
      | inr z ↦
          let rest =
            (NotHit-tail entries key slot (run_of left (slot + 1)) h
              (λ e. ground (arith, z, e))).0 in
          elim (Bool-cases ((entries slot).key == 1)) [
            | inl o ↦ rw (f, z, o) (place_bucket_found entries key left (slot + 1) slot rest)
            | inr o ↦ rw (f, z, o) (place_bucket-first_free entries key left (slot + 1) rest)
          ]
    ]

-- In a list without the key and without a free entry, the search goes on.
pub scan_full :
    (entries : ℕ → Entry) (key : ℕ) (l : List ℕ)
    → NotHit entries key l
    → first_free entries l ≡ none
    → scan entries key l ≡ more
scan_full entries key [] h e = refl
scan_full entries key (s ∷ l) h e =
    let f = NotHit-head entries key s l h in
    elim (Bool-cases ((entries s).key == 0)) [
      | inl t ↦ absurd (let w = rw t at e in cc)
      | inr z ↦ elim (Bool-cases ((entries s).key == 1)) [
        | inl o ↦ absurd (let w = rw (z, o) at e in cc)
        | inr o ↦
            rw (f, z)
              (scan_full entries key l (NotHit-tail entries key s l h (λ c. ground (arith, z, c))).0
                (rw (z, o) at e))
      ]
    ]

-- The two parts of a list without the key.
pub NotHit-append_front :
    (entries : ℕ → Entry) (key : ℕ) (l m : List ℕ)
    → NotHit entries key (l ++ m)
    → NotHit entries key l
NotHit-append_front entries key l m h s e = h s (scan-append entries key l m ∙ rw e refl)

pub NotHit-append_back :
    (entries : ℕ → Entry) (key : ℕ) (l m : List ℕ)
    → NotHit entries key (l ++ m)
    → first_free entries l ≡ none
    → NotHit entries key m
NotHit-append_back entries key l m h e s f =
    let g = scan_full entries key l (NotHit-append_front entries key l m h) e in
    h s (scan-append entries key l m ∙ rw g f)
