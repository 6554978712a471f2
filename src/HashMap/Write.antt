-- ===== src/HashMap/Write.antt =====
-- What a write of one entry does to the searches of src/hashmap.c along a list.
use mathlib.Core.List.{Memᴰ}
use mathlib.Core.List.Memᴰ.{head, tail}
use qthreads.HashMap.Scan.{scan, first_free, NotHit}
use qthreads.HashMap.{Entry, hit, miss, more}
use qthreads.Prelude.{
  ℕ, ◌<◌, ◌≡◌, ◌≢◌, refl, sym, ◌∙◌, ap, true, false, none, some, List, [], ◌∷◌, ◌==◌, inl, inr,
  arith, Bool-cases, some_inj, update, update_same, update_ne, eq_or_ne,
}

hit_inj : {s t : ℕ} → hit s ≡ hit t → s ≡ t
hit_inj e = cc

pub miss_hit : {s : ℕ} → miss ≢ hit s
miss_hit e = cc

pub more_hit : {s : ℕ} → more ≢ hit s
more_hit e = cc

-- The entry that a search finds is one of the list, and holds the key.
pub scan_hit :
    (entries : ℕ → Entry) (key s : ℕ) (l : List ℕ)
    → scan entries key l ≡ hit s
    → Memᴰ s l × ((entries s).key ≡ key)
scan_hit entries key s [] e = absurd (more_hit e)
scan_hit entries key s (x ∷ l) e = elim (Bool-cases ((entries x).key == key)) [
  | inl t ↦
      let w : s ≡ x = hit_inj (sym (rw t at e)) in
      (
        head w,
        ap (λ y. (entries y).key) w ∙ (let c : (entries x).key ≡ key = ground (arith, t) in c),
      )
  | inr f ↦ elim (Bool-cases ((entries x).key == 0)) [
    | inl z ↦ absurd (miss_hit (rw (f, z) at e))
    | inr z ↦ let r = scan_hit entries key s l (rw (f, z) at e) in (tail r.0, r.1)
  ]
]

-- A write of another key, or of the mark of a removed entry, at another entry than the one found.
pub scan_write :
    (entries : ℕ → Entry) (key s f : ℕ) (new : Entry) (l : List ℕ)
    → new.key ≢ key
    → new.key ≢ 0
    → f ≢ s
    → scan entries key l ≡ hit s
    → scan (update entries f new) key l ≡ hit s
scan_write entries key s f new [] other used away e = absurd (more_hit e)
scan_write entries key s f new (x ∷ l) other used away e =
    let skipped : ((entries x).key == key) ≡ false
        → ((entries x).key == 0) ≡ false
        → ((update entries f new x).key == key) ≡ false
        → ((update entries f new x).key == 0) ≡ false
        → scan (update entries f new) key (x ∷ l) ≡ hit s =
      λ a b c d. rw (c, d) (scan_write entries key s f new l other used away (rw (a, b) at e)) in
    elim (Bool-cases ((entries x).key == key)) [
      | inl t ↦
          let w : s ≡ x = hit_inj (sym (rw t at e)) in
          let k : ((update entries f new x).key == key) ≡ true =
            ap (λ y. y.key == key) (update_ne entries f x new (λ c. away (c ∙ sym w))) ∙ t in
          rw k (ap hit (sym w))
      | inr g ↦ elim (Bool-cases ((entries x).key == 0)) [
        | inl z ↦ absurd (miss_hit (rw (g, z) at e))
        | inr z ↦ elim (eq_or_ne f x) [
          | inl c ↦
              let u : update entries f new x ≡ new =
                ap (λ y. update entries y new x) c ∙ update_same entries x new in
              skipped g z (ap (λ y. y.key == key) u ∙ (ground (arith, other)))
                (ap (λ y. y.key == 0) u ∙ (ground (arith, used)))
          | inr c ↦
              let u = update_ne entries f x new c in
              skipped g z (ap (λ y. y.key == key) u ∙ g) (ap (λ y. y.key == 0) u ∙ z)
        ]
      ]
    ]

-- The first free entry is one of the list, and holds no key.
pub first_free-key :
    (entries : ℕ → Entry) (f : ℕ) (l : List ℕ)
    → first_free entries l ≡ some f
    → Memᴰ f l × ((entries f).key < 2)
first_free-key entries f [] e = absurd (let c : none ≡ some f = e in cc)
first_free-key entries f (x ∷ l) e = elim (Bool-cases ((entries x).key == 0)) [
  | inl t ↦
      let w : f ≡ x = some_inj (sym (rw t at e)) in
      (head w, (let c : (entries x).key < 2 = ground (arith, t) in rw w c))
  | inr z ↦ elim (Bool-cases ((entries x).key == 1)) [
    | inl t ↦
        let w : f ≡ x = some_inj (sym (rw (z, t) at e)) in
        (head w, (let c : (entries x).key < 2 = ground (arith, t) in rw w c))
    | inr o ↦ let r = first_free-key entries f l (rw (z, o) at e) in (tail r.0, r.1)
  ]
]

-- A key that is not there is found where it is put.
pub scan_put :
    (entries : ℕ → Entry) (key f : ℕ) (new : Entry) (l : List ℕ)
    → new.key ≡ key
    → NotHit entries key l
    → first_free entries l ≡ some f
    → scan (update entries f new) key l ≡ hit f
scan_put entries key f new [] same absent e = absurd (let c : none ≡ some f = e in cc)
scan_put entries key f new (x ∷ l) same absent e = elim (eq_or_ne f x) [
  | inl c ↦
      let k : ((update entries f new x).key == key) ≡ true =
        ap (λ y. (update entries y new x).key == key) c
        ∙ ap (λ y. y.key == key) (update_same entries x new)
        ∙ (ground (arith, same)) in
      rw k (ap hit (sym c))
  | inr c ↦
      let u = update_ne entries f x new c in
      elim (Bool-cases ((entries x).key == key)) [
        | inl t ↦ absurd (absent x (rw t refl))
        | inr g ↦ elim (Bool-cases ((entries x).key == 0)) [
          | inl z ↦ absurd (c (some_inj (sym (rw z at e))))
          | inr z ↦ elim (Bool-cases ((entries x).key == 1)) [
            | inl o ↦ absurd (c (some_inj (sym (rw (z, o) at e))))
            | inr o ↦
                let k : ((update entries f new x).key == key) ≡ false =
                  ap (λ y. y.key == key) u ∙ g in
                let j : ((update entries f new x).key == 0) ≡ false = ap (λ y. y.key == 0) u ∙ z in
                rw (k, j)
                  (scan_put entries key f new l same (λ s d. absent s (rw (g, z) d))
                    (rw (z, o) at e))
          ]
        ]
      ]
]

-- Where an entry was never used, there is a free one.
pub first_free-some :
    (entries : ℕ → Entry) (s : ℕ) (l : List ℕ)
    → Memᴰ s l
    → (entries s).key ≡ 0
    → first_free entries l ≢ none
first_free-some entries s [] m e c = elim m [ ]
first_free-some entries s (x ∷ l) (head w) e c =
    let z : ((entries x).key == 0) ≡ true =
      ap (λ y. (entries y).key == 0) (sym w) ∙ (ground (arith, e)) in
    absurd (let k = rw z at c in cc)
first_free-some entries s (x ∷ l) (tail m) e c = elim (Bool-cases ((entries x).key == 0)) [
  | inl z ↦ absurd (let k = rw z at c in cc)
  | inr z ↦ elim (Bool-cases ((entries x).key == 1)) [
    | inl o ↦ absurd (let k = rw (z, o) at c in cc)
    | inr o ↦ first_free-some entries s l m e (rw (z, o) at c)
  ]
]
