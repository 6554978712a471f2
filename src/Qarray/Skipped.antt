-- ===== src/Qarray/Skipped.antt =====
-- `qarray_iter_loop` of src/ds/qarray.c over a whole `FIXED_FIELDS` array.
use native.Mathlib.Nat.{mod-eq_of_lt, mul-le-mul_right, div-div-eq-div-mul}
use qthreads.Loop.{word}
use qthreads.Qarray.{Array, fixed_fields, all_same, fixed_hash, dist, DistType, shepof}
use qthreads.Qarray.Loops.{
  is_mine, pred, outside, loop_range, contiguous, loop_strider, shepherds, spawned, gather,
  iter_loop,
}
use qthreads.Qarray.Owner.{owner, segidx-owner}
use qthreads.Qarray.Walk.{within, in_segment}
use qthreads.Prelude.{
  ℕ, zero, suc, ◌+◌, ◌-◌, ◌*◌, ◌/◌, ◌%◌, ◌^◌, ◌≤◌, ◌<◌, ◌≡◌, refl, sym, ◌∙◌, ap, ap₂, false, Option,
  none, some, List, [], ◌∷◌, ◌==◌, ltb, leb, if◌then◌else◌, inl, inr, arith, Bool-cases, total,
  if_both, on_true, on_false,
}

-- A `FIXED_FIELDS` array whose shepherds all have the same number of full segments.
pub record IsEven (sheps : ℕ) (a : Array) : Type 0 where
  pub kind : a.dist_type ≡ fixed_fields
  pub no_extras : a.extras ≡ 0
  pub size_any : 0 < a.segment_size
  pub per_any : 0 < a.segs_per_shep
  pub some_shep : 0 < sheps
  pub full : a.count ≡ sheps * (a.segment_size * a.segs_per_shep)
  pub narrow : a.count < 2 ^ 64

-- The elements of a shepherd's part.
abbrev pub part : Array → ℕ
part a = a.segment_size * a.segs_per_shep

part_any : (sheps : ℕ) (a : Array) → IsEven sheps a → 0 < part a
part_any sheps a e = let x = e.size_any in let y = e.per_any in grind (arith, x, y)

owner_even : (per seg : ℕ) → owner per 0 seg ≡ seg / per
owner_even per seg =
    on_false (λ n. n ≡ seg / per) {b = ltb (seg / (per + 1)) 0} _ (ground arith)
      (let all : seg - 0 ≡ seg = omega arith in ap (λ n. n / per) all)

fields_choice {ℓ} :
    {A : Type ℓ} {d : DistType}
    → d ≡ fixed_fields
    → (w x y z : A) → elim d [ all_same ↦ w | fixed_fields ↦ x | fixed_hash ↦ y | dist ↦ z ] ≡ x
fields_choice e w x y z = rw e refl

even-shepof :
    (sheps : ℕ) (a : Array) (i s : ℕ)
    → IsEven sheps a
    → s < sheps
    → s * part a ≤ i
    → i < (s + 1) * part a
    → shepof sheps a i ≡ some s
unfolding shepof
even-shepof sheps a i s e few low high =
    let m = mul-le-mul_right (part a) (let le : s + 1 ≤ sheps = omega arith in le) in
    on_true (λ (x : Option ℕ). x ≡ some s) {b = ltb i a.count} none
      (ground (arith, m, high, e.full))
      (ap some (
        fields_choice e.kind _ _ _ _
        ∙ segidx-owner sheps (i / a.segment_size) a e.kind
        ∙ ap (λ x. owner a.segs_per_shep x (i / a.segment_size)) e.no_extras
        ∙ owner_even a.segs_per_shep (i / a.segment_size)
        ∙ div-div-eq-div-mul i a.segment_size a.segs_per_shep
        ∙ in_segment (part a) s i (part_any sheps a e) low high))

pred_lem : (n : ℕ) → 0 < n → n < 2 ^ 64 → pred n ≡ n - 1
unfolding pred word
pred_lem n pos h = omega arith

first-shepof : (sheps : ℕ) (a : Array) → IsEven sheps a → shepof sheps a 0 ≡ some 0
first-shepof sheps a e =
    let p = part_any sheps a e in
    even-shepof sheps a 0 0 e e.some_shep (grind arith) (grind (arith, p))

count_pos : (sheps : ℕ) (a : Array) → IsEven sheps a → 0 < a.count
count_pos sheps a e =
    let p = part_any sheps a e in let s = e.some_shep in let f = e.full in grind (arith, p, s, f)

last-shepof :
    (sheps : ℕ) (a : Array) → IsEven sheps a → shepof sheps a (pred a.count) ≡ some (sheps - 1)
last-shepof sheps a e =
    let p = part_any sheps a e in
    let c = count_pos sheps a e in
    let m : sheps - 1 + 1 ≡ sheps = omega (arith, e.some_shep) in
    let n : sheps * part a ≡ (sheps - 1) * part a + part a =
      ap (λ x. x * part a) (sym m) ∙ grind arith in
    let high : (sheps - 1 + 1) * part a ≡ sheps * part a = ap (λ x. x * part a) m in
    rw (pred_lem a.count c e.narrow) (
      even-shepof sheps a (a.count - 1) (sheps - 1) e (omega (arith, e.some_shep))
        (omega (arith, e.full, n, p)) (omega (arith, e.full, high, c)))

mine_first : (sheps : ℕ) (a : Array) (s : ℕ) → IsEven sheps a → is_mine sheps a s 0 ≡ (0 == s)
unfolding is_mine
mine_first sheps a s e = rw (is_mine, first-shepof sheps a e) refl

even-loop_range :
    (sheps : ℕ) (a : Array) (s : ℕ)
    → IsEven sheps a
    → s < sheps
    → loop_range sheps a s 0 a.count ≡ (s * part a, (s + 1) * part a - 1)
unfolding loop_range word
even-loop_range sheps a s e few =
    let m = mul-le-mul_right (part a) (let le : s + 1 ≤ sheps = omega arith in le) in
    let p = part_any sheps a e in
    let n : (s + 1) * part a ≡ s * part a + part a = grind arith in
    let k : (s + 1) * a.segment_size * a.segs_per_shep ≡ (s + 1) * part a = grind arith in
    let l : s * a.segment_size * a.segs_per_shep ≡ s * part a = grind arith in
    let fits : (s + 1) * part a < 2 ^ 64 = omega (arith, m, e.full, e.narrow) in
    let end = mod-eq_of_lt fits in
    let less : s * part a < 2 ^ 64 = omega (arith, n, fits) in
    let from = mod-eq_of_lt less in
    let last : pred (word ((s + 1) * a.segment_size * a.segs_per_shep)) ≡ (s + 1) * part a - 1 =
      ap (λ x. pred (x % 2 ^ 64)) k
      ∙ ap pred end
      ∙ pred_lem ((s + 1) * part a) (omega (arith, n, p)) fits in
    ap₂ (λ x y. (x, y))
      (if_both (λ x. x ≡ s * part a) (is_mine sheps a s 0)
        (λ t.
          let zero_shep : 0 ≡ s = ground (arith, t, mine_first sheps a s e) in
          let none_before = ap (λ x. x * part a) zero_shep in omega (arith, none_before))
        (λ _. ap (λ x. x % 2 ^ 64) l ∙ from))
      (ap (λ x. if ltb x a.count then x else a.count) last
        ∙ on_true (λ x. x ≡ (s + 1) * part a - 1) {b = ltb ((s + 1) * part a - 1) a.count} _
            (ground (arith, m, e.full, n, p)) refl)

even-outside :
    (sheps : ℕ) (a : Array) (s : ℕ)
    → IsEven sheps a
    → s < sheps
    → outside sheps a s 0 a.count ≡ false
unfolding outside
even-outside sheps a s e few =
    rw (first-shepof sheps a e, last-shepof sheps a e)
      (let low : ltb s 0 ≡ false = ground arith in
        let high : ltb (sheps - 1) s ≡ false = ground (arith, few) in rw (low, high) refl)

even-loop_strider :
    (fuel sheps : ℕ) (a : Array) (s : ℕ)
    → IsEven sheps a
    → s < sheps
    → 1 < part a
    → loop_strider fuel sheps a s 0 a.count ≡ some ((s * part a, (s + 1) * part a - 1) ∷ [])
unfolding loop_strider contiguous
even-loop_strider fuel sheps a s e few many =
    fields_choice e.kind _ _ _ _
    ∙ on_false (λ (l : Option (List (ℕ × ℕ))). l ≡ some ((s * part a, (s + 1) * part a - 1) ∷ []))
        {b = outside sheps a s 0 a.count} (some []) (even-outside sheps a s e few)
        (ap contiguous (even-loop_range sheps a s e few)
          ∙ on_true
              (λ (l : Option (List (ℕ × ℕ))). l ≡ some ((s * part a, (s + 1) * part a - 1) ∷ []))
              {b = ltb (s * part a) ((s + 1) * part a - 1)} none
              (let n : (s + 1) * part a ≡ s * part a + part a = grind arith in
                ground (arith, n, many))
              refl)

abbrev even_range : Array → ℕ → ℕ × ℕ
even_range a s = (s * part a, (s + 1) * part a - 1)

abbrev even_ranges : Array → ℕ → ℕ → List (ℕ × ℕ)
even_ranges a from zero = []
even_ranges a from (suc n) = even_range a from ∷ even_ranges a (from + 1) n

even-spawned :
    (sheps : ℕ) (a : Array) → IsEven sheps a → spawned sheps a 0 a.count ≡ some (shepherds 0 sheps)
unfolding spawned
even-spawned sheps a e =
    let all : sheps - 1 + 1 - 0 ≡ sheps = omega (arith, e.some_shep) in
    fields_choice e.kind _ _ _ _
    ∙ rw (first-shepof sheps a e, last-shepof sheps a e) (ap (λ n. some (shepherds 0 n)) all)

even-gather :
    (fuel sheps : ℕ) (a : Array) (from n : ℕ)
    → IsEven sheps a
    → from + n ≤ sheps
    → 1 < part a
    → gather (λ s. loop_strider fuel sheps a s 0 a.count) (shepherds from n)
      ≡ some (even_ranges a from n)
unfolding gather shepherds
even-gather fuel sheps a from zero e h many = refl
even-gather fuel sheps a from (suc n) e h many =
    rw
      (
        gather,
        even-loop_strider fuel sheps a from e (omega (arith, h)) many,
        even-gather fuel sheps a (from + 1) n e (omega (arith, h)) many,
      )
      refl

even-iter_loop :
    (fuel sheps : ℕ) (a : Array)
    → IsEven sheps a
    → 1 < part a
    → iter_loop fuel sheps a 0 a.count ≡ some (even_ranges a 0 sheps)
unfolding iter_loop
even-iter_loop fuel sheps a e many =
    on_true (λ (o : Option (List (ℕ × ℕ))). o ≡ some (even_ranges a 0 sheps)) {b = leb 0 a.count}
      none (ground arith)
      (rw (even-spawned sheps a e) (even-gather fuel sheps a 0 sheps e (omega arith) many))

within-even_range :
    (a : Array) (s j from : ℕ)
    → j < part a
    → within (s * part a + j) (even_range a from)
      ≡ (if from == s then (if j + 1 == part a then 0 else 1) else 0)
within-even_range a s j from h =
    let n : (from + 1) * part a ≡ from * part a + part a = grind arith in
    let m : (s + 1) * part a ≡ s * part a + part a = grind arith in
    elim (Bool-cases (from == s)) [
      | inl t ↦
          let e : from * part a ≡ s * part a =
            ap (λ x. x * part a) (let e : from ≡ s = ground (arith, t) in e) in
          ground (arith, t, e, n, h)
      | inr f ↦ elim (Bool-cases (ltb from s)) [
        | inl t ↦
            let far = mul-le-mul_right (part a) (let le : from + 1 ≤ s = ground (arith, t) in le) in
            ground (arith, f, far, n, h)
        | inr g ↦
            let far =
              mul-le-mul_right (part a) (let le : s + 1 ≤ from = ground (arith, f, g) in le) in
            ground (arith, f, far, m, n, h)
      ]
    ]

-- Element `j` of the part of a shepherd `s` among the ranges of a row of shepherds.
even-total :
    (a : Array) (s j from n : ℕ)
    → j < part a
    → total (within (s * part a + j)) (even_ranges a from n) ≡ (
        if leb from s
        then (if ltb s (from + n) then (if j + 1 == part a then 0 else 1) else 0)
        else 0)
even-total a s j from zero h = ground arith
even-total a s j from (suc n) h =
    let rest = even-total a s j (from + 1) n h in
    let here = within-even_range a s j from h in rw here (ground (arith, rest))

-- In a `FIXED_FIELDS` array of full segments that the shepherds share out evenly, in parts of more than
-- one element,
-- `qarray_iter_loop` over all the elements leaves out one element of each shepherd: the last of its
-- part. Every other element is handed to the loop function once.
pub iter_loop-skips :
    (fuel sheps : ℕ) (a : Array) (s j : ℕ)
    → IsEven sheps a
    → 1 < part a
    → s < sheps
    → j < part a
    → (ranges : List (ℕ × ℕ)) × (iter_loop fuel sheps a 0 a.count ≡ some ranges)
      × (total (within (s * part a + j)) ranges ≡ (if j + 1 == part a then 0 else 1))
iter_loop-skips fuel sheps a s j e many few h = (
  even_ranges a 0 sheps,
  even-iter_loop fuel sheps a e many,
  even-total a s j 0 sheps h ∙ ground (arith, few),
)
