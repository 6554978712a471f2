-- ===== src/Qarray/Owner.antt =====
-- Which shepherd owns a segment of a `FIXED_FIELDS` array of src/ds/qarray.c.
use native.Mathlib.Nat.{
  mod-lt, div-add-mod', le-div_iff_mul-le, div-lt_iff_lt-mul, mod-eq_of_lt, div-eq_of_lt,
}
use qthreads.Qarray.{Array, fixed_fields, shepof_segidx, stripes}
use qthreads.Prelude.{
  ℕ, ◌+◌, ◌-◌, ◌*◌, ◌/◌, ◌%◌, ◌≤◌, ◌<◌, ◌≡◌, refl, sym, ◌∙◌, ap, subst, ◌==◌, ltb, if◌then◌else◌,
  if_both, arith,
}

-- An array of `segments` segments among `sheps` shepherds as `qarray_create` makes it.
pub record IsFields (sheps segments : ℕ) (a : Array) : Type 0 where
  pub kind : a.dist_type ≡ fixed_fields
  pub parts : (a.segs_per_shep, a.extras) ≡ stripes sheps segments

-- The first segment of a shepherd: the shepherds before the extras have one segment more.
abbrev pub field_start : ℕ → ℕ → ℕ → ℕ
field_start per extras j = j * per + (if ltb j extras then j else extras)

abbrev pub owner : ℕ → ℕ → ℕ → ℕ
owner per extras seg =
    if ltb (seg / (per + 1)) extras then seg / (per + 1) else (seg - extras) / per

between_multiples : (n d : ℕ) → 0 < d → (n / d * d ≤ n) × (n < (n / d + 1) * d)
between_multiples n d pos =
    let e = div-add-mod' n d in let m = mod-lt n pos in (omega (arith, e), grind (arith, e, m))

field_start_low : (per extras j : ℕ) → j ≤ extras → field_start per extras j ≡ j * per + j
field_start_low per extras j h =
    if_both (λ k. j * per + k ≡ j * per + j) (ltb j extras) (λ _. refl)
      (λ f. ap (λ k. j * per + k) (ground arith))

field_start_high : (per extras j : ℕ) → extras ≤ j → field_start per extras j ≡ j * per + extras
field_start_high per extras j h =
    if_both (λ k. j * per + k ≡ j * per + extras) (ltb j extras) (λ t. ground arith) (λ _. refl)

owner-field :
    (sheps per extras seg : ℕ)
    → 0 < per
    → extras < sheps
    → seg < sheps * per + extras
    → (owner per extras seg < sheps)
      × (field_start per extras (owner per extras seg) ≤ seg)
      × (seg < field_start per extras (owner per extras seg + 1))
owner-field sheps per extras seg pos few h =
    if_both
      (λ j. (j < sheps) × (field_start per extras j ≤ seg) × (seg < field_start per extras (j + 1)))
      (ltb (seg / (per + 1)) extras)
      (λ t.
        let j : ℕ = seg / (per + 1) in
        let less : j < extras = ground (arith, t) in
        let b = between_multiples seg (per + 1) (omega arith) in
        (
          omega (arith, less),
          subst (λ x. x ≤ seg) (sym (field_start_low per extras j (omega (arith, less))))
              (grind (arith, b.0)),
          subst (λ x. seg < x) (sym (field_start_low per extras (j + 1) (omega (arith, less))))
              (grind (arith, b.1)),
        ))
      (λ f.
        let j : ℕ = (seg - extras) / per in
        let low : extras ≤ seg / (per + 1) = ground (arith, f) in
        let k = (le-div_iff_mul-le (omega arith)).0 low in
        let b = between_multiples (seg - extras) per pos in
        let high : extras ≤ j = (le-div_iff_mul-le pos).1 (grind (arith, k)) in
        (
          (div-lt_iff_lt-mul pos).1 (grind (arith, k)),
          subst (λ x. x ≤ seg) (sym (field_start_high per extras j high)) (grind (arith, k, b.0)),
          subst (λ x. seg < x) (sym (field_start_high per extras (j + 1) (omega (arith, high))))
              (grind (arith, b.1)),
        ))

pub segidx-owner :
    (sheps seg : ℕ) (a : Array)
    → a.dist_type ≡ fixed_fields
    → shepof_segidx sheps a seg ≡ owner a.segs_per_shep a.extras seg
unfolding shepof_segidx
segidx-owner sheps seg a kind = rw kind refl

fields_owner :
    (sheps segments seg : ℕ) (a : Array)
    → IsFields sheps segments a
    → shepof_segidx sheps a seg ≡ owner (stripes sheps segments).0 (stripes sheps segments).1 seg
fields_owner sheps segments seg a f =
    segidx-owner sheps seg a f.kind ∙ ap (λ p. owner p.0 p.1 seg) f.parts

-- With at least as many segments as shepherds, each segment of a `FIXED_FIELDS` array belongs to a
-- shepherd there is, and lies in the part of that shepherd when the array is cut, in order, into one
-- part for each shepherd, of `segments / sheps` segments each and one more in the first
-- `segments % sheps`.
pub shepof_segidx-field :
    (sheps segments seg : ℕ) (a : Array)
    → 0 < sheps
    → sheps ≤ segments
    → seg < segments
    → IsFields sheps segments a
    → (shepof_segidx sheps a seg < sheps)
      × (field_start (segments / sheps) (segments % sheps) (shepof_segidx sheps a seg) ≤ seg)
      × (seg < field_start (segments / sheps) (segments % sheps) (shepof_segidx sheps a seg + 1))
unfolding stripes
shepof_segidx-field sheps segments seg a pos many h f =
    let per : 1 ≤ segments / sheps = (le-div_iff_mul-le pos).1 (omega (arith, many)) in
    let e = div-add-mod' segments sheps in
    rw (fields_owner sheps segments seg a f) (
      if_both
        (λ p.
          (owner p (segments % sheps) seg < sheps)
          × (field_start (segments / sheps) (segments % sheps) (owner p (segments % sheps) seg)
              ≤ seg)
          × (seg
              < field_start (segments / sheps) (segments % sheps)
                  (owner p (segments % sheps) seg + 1)))
        (segments / sheps == 0) (λ t. ground (arith, t, per))
        (λ _.
          owner-field sheps (segments / sheps) (segments % sheps) seg per (mod-lt segments pos)
            (grind (arith, e, h))))

-- With fewer segments than shepherds, the remainder that is the number of extras is the number of the
-- segments, and the segments of each part are set to 1: a shepherd gets two segments while another
-- gets none.
pub shepof_segidx-crowded :
    (sheps segments seg : ℕ) (a : Array)
    → segments < sheps
    → seg < segments
    → IsFields sheps segments a
    → shepof_segidx sheps a seg ≡ seg / 2
unfolding stripes
shepof_segidx-crowded sheps segments seg a few h f =
    rw (fields_owner sheps segments seg a f, div-eq_of_lt few, mod-eq_of_lt few)
      (if_both (λ j. j ≡ seg / 2) (ltb (seg / 2) segments) (λ _. refl) (λ n. ground (arith, n)))
