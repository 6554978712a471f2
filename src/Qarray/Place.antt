-- ===== src/Qarray/Place.antt =====
-- Where the elements of an array of src/ds/qarray.c lie.
use native.Mathlib.Nat.{
  mod-lt, mod-eq_of_lt, div-add-mod', le-div_iff_mul-le, div-lt_iff_lt-mul, mul-le-mul_right,
}
use qthreads.Loop.{word}
use qthreads.Qarray.{Array, segment_count, elem_nomigrate, elem_migrate}
use qthreads.Prelude.{
  ℕ, ◌+◌, ◌-◌, ◌*◌, ◌/◌, ◌%◌, ◌^◌, ◌≤◌, ◌<◌, ◌≡◌, refl, ◌∙◌, ap, Option, none, some, ◌==◌, ltb, leb,
  if_both, on_true, on_false, eq_or_ne, inl, inr, arith,
}

-- The bytes of an array and of each of its segments are there.
pub record IsRoomy (a : Array) : Type 0 where
  pub any : 0 < a.segment_size
  pub segment_room : a.segment_size * a.unit_size ≤ a.segment_bytes
  pub narrow : a.base_ptr + segment_count a.count a.segment_size * a.segment_bytes < 2 ^ 64

-- The distance of an element from the beginning.
abbrev pub offset : Array → ℕ → ℕ
offset a i = i / a.segment_size * a.segment_bytes + i % a.segment_size * a.unit_size

div_le : (i j size : ℕ) → 0 < size → i ≤ j → i / size ≤ j / size
div_le i j size any h = let e = div-add-mod' i size in (le-div_iff_mul-le any).1 (omega (arith, e))

pub div_lt_count : (i count size : ℕ) → 0 < size → i < count → i / size < segment_count count size
unfolding segment_count
div_lt_count i count size any h =
    let e = div-add-mod' count size in
    let m = mod-lt count any in
    (div-lt_iff_lt-mul any).1 (
      if_both (λ b. i < (count / size + b) * size) (count % size == 0) (λ t. grind (arith, e, h, t))
        (λ t. grind (arith, e, m, h)))

offset-end :
    (a : Array) (i : ℕ)
    → IsRoomy a
    → offset a i + a.unit_size ≤ (i / a.segment_size + 1) * a.segment_bytes
offset-end a i r =
    let m = mod-lt i r.any in
    let room = r.segment_room in
    let less : i % a.segment_size + 1 ≤ a.segment_size = omega (arith, m) in
    let k = mul-le-mul_right a.unit_size less in grind arith

offset_mono : (a : Array) (i j : ℕ) → IsRoomy a → i < j → offset a i + a.unit_size ≤ offset a j
offset_mono a i j r h = elim (eq_or_ne (i / a.segment_size) (j / a.segment_size)) [
  | inl e ↦
      let ei = div-add-mod' i a.segment_size in
      let ej = div-add-mod' j a.segment_size in
      let same = ap (λ q. q * a.segment_size) e in
      let less : i % a.segment_size + 1 ≤ j % a.segment_size = omega (arith, ei, ej, same) in
      let k = mul-le-mul_right a.unit_size less in
      let b = ap (λ q. q * a.segment_bytes) e in grind (arith, k, b)
  | inr n ↦
      let le = div_le i j a.segment_size r.any (omega arith) in
      let more : i / a.segment_size + 1 ≤ j / a.segment_size = omega (arith, le, n) in
      let k = mul-le-mul_right a.segment_bytes more in
      let o = offset-end a i r in omega (arith, k, o)
]

elem-offset :
    (a : Array) (i : ℕ)
    → IsRoomy a
    → i < a.count
    → elem_nomigrate a i ≡ some (a.base_ptr + offset a i)
unfolding elem_nomigrate word
elem-offset a i r h =
    let ei = div-add-mod' i a.segment_size in
    let rest : i - i / a.segment_size * a.segment_size ≡ i % a.segment_size = omega (arith, ei) in
    let o = offset-end a i r in
    let d = mul-le-mul_right a.segment_bytes (div_lt_count i a.count a.segment_size r.any h) in
    on_false (λ (x : Option ℕ). x ≡ some (a.base_ptr + offset a i)) {b = ltb a.count i} none
      (ground arith)
      (ap
          (λ k.
            some ((a.base_ptr + (i / a.segment_size * a.segment_bytes + k * a.unit_size)) % 2 ^ 64))
          rest
        ∙ ap some (mod-eq_of_lt (omega (arith, o, d, r.narrow))))

-- In an array whose segments have room for their elements, and which lies below 2 ^ 64:
-- `qarray_elem_nomigrate` of an index below the count returns an address; the element there ends
-- within the memory of the array; and it ends before the element of any greater index below the count
-- begins.
pub elem_nomigrate-apart :
    (a : Array) (i j : ℕ)
    → IsRoomy a
    → i < j
    → j < a.count
    → (p : ℕ) × (q : ℕ) × (elem_nomigrate a i ≡ some p)
      × (elem_nomigrate a j ≡ some q)
      × (a.base_ptr ≤ p)
      × (p + a.unit_size ≤ q)
      × (q + a.unit_size ≤ a.base_ptr + segment_count a.count a.segment_size * a.segment_bytes)
elem_nomigrate-apart a i j r h k =
    let o = offset-end a j r in
    let d = mul-le-mul_right a.segment_bytes (div_lt_count j a.count a.segment_size r.any k) in
    let mono = offset_mono a i j r h in
    (
      a.base_ptr + offset a i,
      a.base_ptr + offset a j,
      elem-offset a i r (omega arith),
      elem-offset a j r k,
      omega arith,
      omega (arith, mono),
      omega (arith, o, d),
    )

-- `qarray_elem_migrate` has its test the wrong way round: for an index below the count it returns
-- nothing, though the array has the element; and for one that is not, it returns an address.
pub elem_migrate-inverted :
    (a : Array) (i j : ℕ)
    → IsRoomy a
    → i < a.count
    → a.count ≤ j
    → (elem_migrate a i ≡ none)
      × (elem_nomigrate a i ≡ some (a.base_ptr + offset a i))
      × ((p : ℕ) × (elem_migrate a j ≡ some p))
unfolding elem_migrate
elem_migrate-inverted a i j r h k = (
  on_false (λ (x : Option ℕ). x ≡ none) {b = leb a.count i} _ (ground arith) refl,
  elem-offset a i r h,
  on_true (λ (x : Option ℕ). (p : ℕ) × (x ≡ some p)) {b = leb a.count j} none (ground arith)
      (_, refl),
)
