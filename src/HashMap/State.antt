-- ===== src/HashMap/State.antt =====
-- What src/hashmap.c keeps of a table: an entry in use is the one that the search for its key finds.
use qthreads.HashMap.Cover.{route_inside, route-Mem}
use qthreads.HashMap.Route.{Shape, route, find_entry-scan}
use qthreads.HashMap.Scan.{scan, settle, NotHit, first_free}
use qthreads.HashMap.Tally.{tally, live, dead, unused}
use qthreads.HashMap.Write.{scan_hit, scan_write, miss_hit, more_hit, first_free-some}
use qthreads.HashMap.{Entry, Table, Probe, hit, miss, more, find_entry}
use qthreads.Prelude.{
  ℕ, ◌+◌, ◌-◌, ◌*◌, ◌/◌, ◌^◌, ◌≤◌, ◌<◌, ◌≡◌, ◌≢◌, refl, sym, ◌∙◌, ap, Option, none, some, inl, inr,
  ◌⊎◌, arith, update, update_same, update_ne, eq_or_ne, Option-cases,
}

-- Every entry in use is found by its key.
abbrev pub Placed : ℕ → ℕ → (ℕ → Entry) → Type 0
Placed b n entries =
    (s key : ℕ)
    → s < 2 ^ n * 2 ^ b
    → (entries s).key ≡ key
    → 2 ≤ key
    → scan entries key (route b n key) ≡ hit s

-- A table, of 2 ^ n buckets of 2 ^ b entries.
pub record Laid (b n : ℕ) (h : Table) : Type 0 where
  pub shape : Shape b n h
  pub large : 128 ≤ 2 ^ n * 2 ^ b
  pub placed : Placed b n h.entries
  pub lives : tally live h.entries (2 ^ n * 2 ^ b) ≡ h.population
  pub deads : tally dead h.entries (2 ^ n * 2 ^ b) ≡ h.deletes
  pub grow : h.grow_size ≡ 2 ^ n * 2 ^ b * 10905190 / 2 ^ 24 - 1
  pub tidy : h.tidy_up_size ≡ 2 ^ n * 2 ^ b * 13421773 / 2 ^ 24 - 1
  pub room : h.population + h.deletes ≤ h.tidy_up_size + 1

-- The value of the entry that a search has found.
abbrev pub found : (ℕ → Entry) → Probe → Option ℕ
found entries (hit s) = some (entries s).value
found entries miss = none
found entries more = none

-- The map that a table stands for: the value in the entry that the search for a key finds.
abbrev pub lookup : ℕ → Table → ℕ → Option ℕ
lookup bucketsize h key = elim (find_entry bucketsize h key) [
  | none ↦ none
  | some p ↦ found h.entries p
]

found-settle : (entries : ℕ → Entry) (p : Probe) → found entries (settle p) ≡ found entries p
found-settle entries (hit s) = refl
found-settle entries miss = refl
found-settle entries more = refl

pub lookup-scan :
    {b n : ℕ} {h : Table}
    → Shape b n h
    → (key : ℕ) → lookup (2 ^ b) h key ≡ found h.entries (scan h.entries key (route b n key))
lookup-scan {b} {n} {h} s key =
    ap (λ o. elim o [ none ↦ none | some p ↦ found h.entries p ]) (find_entry-scan s key)
    ∙ found-settle h.entries (scan h.entries key (route b n key))

pub hit_or_not : (p : Probe) → ((s : ℕ) × (p ≡ hit s)) ⊎ ((s : ℕ) → p ≢ hit s)
hit_or_not (hit s) = inl (s, refl)
hit_or_not miss = inr (λ s. miss_hit)
hit_or_not more = inr (λ s. more_hit)

pub settle_miss : (p : Probe) → ((s : ℕ) → p ≢ hit s) → settle p ≡ miss
settle_miss (hit s) h = absurd (h s refl)
settle_miss miss h = refl
settle_miss more h = refl

pub found-none : (entries : ℕ → Entry) (p : Probe) → ((s : ℕ) → p ≢ hit s) → found entries p ≡ none
found-none entries (hit s) h = absurd (h s refl)
found-none entries miss h = refl
found-none entries more h = refl

pub absent-NotHit :
    {b n : ℕ} {h : Table}
    → Shape b n h
    → (key : ℕ) → lookup (2 ^ b) h key ≡ none
    → NotHit h.entries key (route b n key)
absent-NotHit {b} {n} {h} s key e t w =
    let c : none ≡ some (h.entries t).value = sym e ∙ lookup-scan s key ∙ ap (found h.entries) w in
    cc

-- A write at one entry, for the keys that it does not concern.
module _ (b n : ℕ) (entries : ℕ → Entry) (f : ℕ) (new : Entry) (h : Placed b n entries)
    (used : new.key ≢ 0) where
  pub write_keeps :
      (s key : ℕ)
      → s < 2 ^ n * 2 ^ b
      → (update entries f new s).key ≡ key
      → 2 ≤ key
      → new.key ≢ key
      → scan (update entries f new) key (route b n key) ≡ hit s
  write_keeps s key inside e big other = elim (eq_or_ne f s) [
    | inl c ↦ absurd (
        other (
          sym
            (ap (λ y. (update entries y new s).key) c ∙ ap (λ y. y.key) (update_same entries s new))
          ∙ e))
    | inr c ↦
        let old : (entries s).key ≡ key = sym (ap (λ y. y.key) (update_ne entries f s new c)) ∙ e in
        scan_write entries key s f new (route b n key) other used c (h s key inside old big)
  ]

  pub write_others :
      (key : ℕ)
      → 2 ≤ key
      → new.key ≢ key
      → (entries f).key ≢ key
      → found (update entries f new) (scan (update entries f new) key (route b n key))
        ≡ found entries (scan entries key (route b n key))
  write_others key big other apart = elim (hit_or_not (scan entries key (route b n key))) [
    | inl w ↦
        let r = scan_hit entries key w.0 (route b n key) w.1 in
        let away : f ≢ w.0 = λ c. apart (ap (λ y. (entries y).key) c ∙ r.1) in
        ap (found (update entries f new))
          (scan_write entries key w.0 f new (route b n key) other used away w.1)
        ∙ ap (λ y. some y.value) (update_ne entries f w.0 new away)
        ∙ sym (ap (found entries) w.1)
    | inr out ↦
        found-none (update entries f new) (scan (update entries f new) key (route b n key)) (λ s e.
          let r = scan_hit (update entries f new) key s (route b n key) e in
          let away : f ≢ s = λ c. other (
            sym (
              ap (λ y. (update entries y new s).key) c
              ∙ ap (λ y. y.key) (update_same entries s new))
            ∙ r.1) in
          out s (
            h s key (route_inside b n key s r.0)
              (sym (ap (λ y. y.key) (update_ne entries f s new away)) ∙ r.1) big))
        ∙ sym (found-none entries (scan entries key (route b n key)) out)
  ]

-- There is always a free entry on the route of a key.
pub first_free-found :
    {b n : ℕ} {h : Table}
    → Laid b n h
    → (key : ℕ) → (f : ℕ) × (first_free h.entries (route b n key) ≡ some f)
first_free-found {b} {n} {h} t key =
    let few : tally live h.entries (2 ^ n * 2 ^ b) + tally dead h.entries (2 ^ n * 2 ^ b)
        < 2 ^ n * 2 ^ b =
      omega (arith, t.lives, t.deads, t.room, t.tidy, t.large) in
    let u = unused h.entries (2 ^ n * 2 ^ b) few in
    elim (Option-cases (first_free h.entries (route b n key))) [
      | inl e ↦
          absurd (first_free-some h.entries u.0 (route b n key) (route-Mem b n key u.0 u.1) u.2 e)
      | inr r ↦ r
    ]
