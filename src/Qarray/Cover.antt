-- ===== src/Qarray/Cover.antt =====
-- Which elements the striders of src/ds/qarray.c hand to the loop function, in the arrays whose part
-- of a shepherd is not contiguous.
use native.Mathlib.Nat.{div-add-mod', mul-le-mul_right, add-mod_right}
use qthreads.Qarray.{Array, DistType, all_same, fixed_fields, fixed_hash, dist, shepof_segidx}
use qthreads.Qarray.Loops.{advance, seek}
use qthreads.Qarray.Seek.{IsRange, mine, Blank, Sought, seek-Sought, hop-next, step-next}
use qthreads.Prelude.{
  ℕ, suc, ◌+◌, ◌*◌, ◌/◌, ◌%◌, ◌≤◌, ◌<◌, ◌≡◌, ◌≢◌, refl, ◌∙◌, ap, true, none, some, leb,
  if◌then◌else◌, inl, inr, arith, Bool-cases,
}

hash-segidx :
    (sheps : ℕ) (a : Array) (q : ℕ) → a.dist_type ≡ fixed_hash → shepof_segidx sheps a q ≡ q % sheps
unfolding shepof_segidx
hash-segidx sheps a q e = rw e refl

-- Two numbers with the same remainder are not nearer than the divisor.
apart : (s k q : ℕ) → 0 < s → k < q → q < k + s → q % s ≢ k % s
apart s k q pos low high e = elim (Bool-cases (leb (q / s) (k / s))) [
  | inl t ↦
      let m = mul-le-mul_right s (let le : q / s ≤ k / s = ground (arith, t) in le) in
      let a = div-add-mod' q s in let b = div-add-mod' k s in omega (arith, m, a, b, e)
  | inr f ↦
      let m = mul-le-mul_right s (let le : k / s + 1 ≤ q / s = ground (arith, f) in le) in
      let a = div-add-mod' q s in let b = div-add-mod' k s in grind (arith, m, a, b, e)
]

hash-Blank :
    (sheps : ℕ) (a : Array) (shep k : ℕ)
    → a.dist_type ≡ fixed_hash
    → 0 < sheps
    → mine sheps a shep k ≡ true
    → Blank sheps a shep (k + 1) (k + sheps)
hash-Blank sheps a shep k e pos t q low high =
    let n = apart sheps k q pos (omega arith) high in
    let eq = hash-segidx sheps a q e in
    let ek = hash-segidx sheps a k e in ground (arith, t, n, eq, ek)

hash-mine :
    (sheps : ℕ) (a : Array) (shep k : ℕ)
    → a.dist_type ≡ fixed_hash
    → mine sheps a shep k ≡ true
    → mine sheps a shep (k + sheps) ≡ true
hash-mine sheps a shep k e t =
    rw (hash-segidx sheps a (k + sheps) e, add-mod_right) (rw (hash-segidx sheps a k e) at t)

advance_hash :
    (fuel sheps : ℕ) (a : Array) (shep max_count k : ℕ)
    → a.dist_type ≡ fixed_hash
    → IsRange sheps a max_count
    → k * a.segment_size < max_count
    → advance fuel sheps a shep (k * a.segment_size) max_count
      ≡ some (
          if leb max_count ((k + sheps) * a.segment_size)
          then none
          else some ((k + sheps) * a.segment_size))
unfolding advance
advance_hash fuel sheps a shep max_count k e r h = rw (e, hop-next sheps a max_count k r h) refl

dist_choice :
    {A : Type 0} {d : DistType}
    → d ≡ dist
    → (x y z : A) → elim d [ all_same ↦ x | fixed_fields ↦ x | fixed_hash ↦ y | dist ↦ z ] ≡ z
dist_choice e x y z = rw e refl

advance_dist :
    (fuel sheps : ℕ) (a : Array) (shep max_count k : ℕ)
    → a.dist_type ≡ dist
    → IsRange sheps a max_count
    → k * a.segment_size < max_count
    → advance fuel sheps a shep (k * a.segment_size) max_count ≡ (
        if leb max_count ((k + 1) * a.segment_size)
        then some none
        else seek fuel sheps a shep ((k + 1) * a.segment_size) max_count)
unfolding advance
advance_dist fuel sheps a shep max_count k e r h =
    dist_choice e _ _ _
    ∙ ap (λ n. if leb max_count n then some none else seek fuel sheps a shep n max_count)
        (step-next sheps a max_count k r h)

pub advance-Sought :
    (fuel sheps : ℕ) (a : Array) (shep max_count k : ℕ)
    → IsRange sheps a max_count
    → k * a.segment_size < max_count
    → max_count < k * a.segment_size + suc fuel
    → mine sheps a shep k ≡ true
    → Sought sheps a shep max_count
        (k + 1)
        (advance fuel sheps a shep (k * a.segment_size) max_count)
advance-Sought fuel sheps a shep max_count k r h enough t = elim r.spread [
  | inl e ↦
      rw (advance_hash fuel sheps a shep max_count k e r h)
        (elim (Bool-cases (leb max_count ((k + sheps) * a.segment_size))) [
          | inl g ↦ record {
            seg = k + sheps;
            above = omega (arith, r.some_shep);
            blank = hash-Blank sheps a shep k e r.some_shep t;
            outcome = inr (ground (arith, g), rw g refl);
          }
          | inr g ↦ record {
            seg = k + sheps;
            above = omega (arith, r.some_shep);
            blank = hash-Blank sheps a shep k e r.some_shep t;
            outcome = inl (ground (arith, g), hash-mine sheps a shep k e t, rw g refl);
          }
        ])
  | inr e ↦
      rw (advance_dist fuel sheps a shep max_count k e r h)
        (elim (Bool-cases (leb max_count ((k + 1) * a.segment_size))) [
          | inl g ↦ record {
            seg = k + 1;
            above = omega arith;
            blank = λ q low high. absurd (omega arith);
            outcome = inr (ground (arith, g), rw g refl);
          }
          | inr g ↦ rw g (
              seek-Sought fuel sheps a shep max_count (k + 1) r (ground (arith, g))
                (grind (arith, r.any)))
        ])
]
