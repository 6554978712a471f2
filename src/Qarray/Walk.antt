-- ===== src/Qarray/Walk.antt =====
-- Which elements a strider of src/ds/qarray.c hands to the loop function, in the arrays whose part
-- of a shepherd is not contiguous.
use native.Mathlib.Nat.{le-div_iff_mul-le, div-lt_iff_lt-mul, mul-le-mul_right}
use qthreads.Loop.{word, span}
use qthreads.Qarray.{Array}
use qthreads.Qarray.Loops.{advance, chunk_end, stride}
use qthreads.Qarray.Seek.{IsRange, mine, Blank}
use qthreads.Qarray.Cover.{advance-Sought}
use qthreads.Prelude.{
  ℕ, zero, suc, ◌+◌, ◌-◌, ◌*◌, ◌/◌, ◌%◌, ◌^◌, ◌≤◌, ◌<◌, ◌≡◌, refl, sym, ◌∙◌, ap, Bool, true, false,
  Option, none, some, List, [], ◌∷◌, ltb, leb, if◌then◌else◌, inl, inr, arith, Bool-cases, total,
}

-- Whether an element is in a range.
abbrev pub within : ℕ → ℕ × ℕ → ℕ
within i r = if leb r.0 i then (if ltb i r.1 then 1 else 0) else 0

-- Whether an element is in a range, and in a segment of the shepherd.
abbrev pub want : ℕ → Array → ℕ → ℕ → ℕ → ℕ → ℕ
want sheps a shep lo hi i =
    if leb lo i
    then (if ltb i hi then (if mine sheps a shep (i / a.segment_size) then 1 else 0) else 0)
    else 0

chunk_end_lem :
    (sheps : ℕ) (a : Array) (max_count k : ℕ)
    → IsRange sheps a max_count
    → k * a.segment_size < max_count
    → chunk_end a (k * a.segment_size) max_count
      ≡ (if leb max_count ((k + 1) * a.segment_size) then max_count else (k + 1) * a.segment_size)
unfolding chunk_end word span
chunk_end_lem sheps a max_count k r h =
    let c : ℕ = k * a.segment_size in
    let left : (max_count + (2 ^ 64 - c)) % 2 ^ 64 ≡ max_count - c =
      omega (arith, h, r.inside, r.narrow) in
    let n : (k + 1) * a.segment_size ≡ c + a.segment_size = grind arith in
    rw (left, n) (ground (arith, h, r.inside, r.narrow))

pub in_segment : (size k i : ℕ) → 0 < size → k * size ≤ i → i < (k + 1) * size → i / size ≡ k
in_segment size k i pos low high =
    let le = (le-div_iff_mul-le pos).1 low in
    let lt = (div-lt_iff_lt-mul pos).1 high in omega (arith, le, lt)

-- A test that holds on a first part of a range and fails on the next.
range_split :
    (b : Bool) (c d e hi i : ℕ)
    → c ≤ d
    → d ≤ e
    → (c ≤ i → i < d → b ≡ true)
    → (d ≤ i → i < e → b ≡ false)
    → within i (c, if leb hi d then hi else d)
        + (if leb e i then (if ltb i hi then (if b then 1 else 0) else 0) else 0)
      ≡ (if leb c i then (if ltb i hi then (if b then 1 else 0) else 0) else 0)
range_split true c d e hi i low high mines others = elim (Bool-cases (leb d i)) [
  | inl t ↦ elim (Bool-cases (ltb i e)) [
    | inl u ↦ absurd (let n = others (ground (arith, t)) (ground (arith, u)) in cc)
    | inr u ↦ ground (arith, t, u)
  ]
  | inr f ↦ ground (arith, f)
]
range_split false c d e hi i low high mines others = elim (Bool-cases (leb c i)) [
  | inl t ↦ elim (Bool-cases (ltb i d)) [
    | inl u ↦ absurd (let n = mines (ground (arith, t)) (ground (arith, u)) in cc)
    | inr u ↦ ground (arith, t, u)
  ]
  | inr f ↦ ground (arith, f)
]

-- The elements wanted from a segment of the shepherd on are those of its segment, and those from the
-- next segment of the shepherd on.
chunk-want :
    (sheps : ℕ) (a : Array) (shep max_count k seg i : ℕ)
    → 0 < a.segment_size
    → mine sheps a shep k ≡ true
    → k + 1 ≤ seg
    → Blank sheps a shep (k + 1) seg
    → within i (
      k * a.segment_size,
      if leb max_count ((k + 1) * a.segment_size) then max_count else (k + 1) * a.segment_size,
    )
        + want sheps a shep (seg * a.segment_size) max_count i
      ≡ want sheps a shep (k * a.segment_size) max_count i
chunk-want sheps a shep max_count k seg i pos t above blank =
    range_split (mine sheps a shep (i / a.segment_size)) (k * a.segment_size)
      ((k + 1) * a.segment_size) (seg * a.segment_size) max_count i
      (mul-le-mul_right a.segment_size (omega arith)) (mul-le-mul_right a.segment_size above)
      (λ low high. rw (in_segment a.segment_size k i pos low high) t)
      (λ low high.
        blank (i / a.segment_size) ((le-div_iff_mul-le pos).1 low) ((div-lt_iff_lt-mul pos).1 high))

pub want_none : (sheps : ℕ) (a : Array) (shep lo hi i : ℕ) → hi ≤ lo → want sheps a shep lo hi i ≡ 0
want_none sheps a shep lo hi i h = ground (arith, h)

-- The elements wanted from a segment on are those wanted from the next segment of the shepherd on.
pub Blank-want :
    (sheps : ℕ) (a : Array) (shep max_count k seg i : ℕ)
    → 0 < a.segment_size
    → k ≤ seg
    → Blank sheps a shep k seg
    → want sheps a shep (seg * a.segment_size) max_count i
      ≡ want sheps a shep (k * a.segment_size) max_count i
Blank-want sheps a shep max_count k seg i pos above blank =
    let c : ℕ = k * a.segment_size in
    let rest : ℕ = want sheps a shep (seg * a.segment_size) max_count i in
    let empty : 0 ≡ within i (c, if leb max_count c then max_count else c) = ground arith in
    let zero_add : rest ≡ 0 + rest = omega arith in
    zero_add
    ∙ ap (λ n. n + rest) empty
    ∙ range_split (mine sheps a shep (i / a.segment_size)) c c (seg * a.segment_size) max_count i
        (omega arith) (mul-le-mul_right a.segment_size above) (λ low high. absurd (omega arith))
        (λ low high.
          blank (i / a.segment_size) ((le-div_iff_mul-le pos).1 low)
            ((div-lt_iff_lt-mul pos).1 high))

-- What a walk gives: ranges that hold, once, each wanted element.
pub record Covers (sheps : ℕ) (a : Array) (shep lo hi : ℕ) (o : Option (List (ℕ × ℕ)))
    : Type 0 where
  pub ranges : List (ℕ × ℕ)
  pub given : o ≡ some ranges
  pub once : (i : ℕ) → total (within i) ranges ≡ want sheps a shep lo hi i

stride_last :
    (fuel sheps : ℕ) (a : Array) (shep count max_count : ℕ)
    → advance fuel sheps a shep count max_count ≡ some none
    → stride (suc fuel) sheps a shep count max_count
      ≡ some ((count, chunk_end a count max_count) ∷ [])
unfolding stride
stride_last fuel sheps a shep count max_count e = rw (stride, e) refl

stride_next :
    (fuel sheps : ℕ) (a : Array) (shep count max_count next : ℕ) (l : List (ℕ × ℕ))
    → advance fuel sheps a shep count max_count ≡ some (some next)
    → stride fuel sheps a shep next max_count ≡ some l
    → stride (suc fuel) sheps a shep count max_count
      ≡ some ((count, chunk_end a count max_count) ∷ l)
unfolding stride
stride_next fuel sheps a shep count max_count next l e f = rw (stride, e, f) refl

pub stride-Covers :
    (fuel sheps : ℕ) (a : Array) (shep max_count k : ℕ)
    → IsRange sheps a max_count
    → k * a.segment_size < max_count
    → max_count < k * a.segment_size + fuel
    → mine sheps a shep k ≡ true
    → Covers sheps a shep
        (k * a.segment_size)
        max_count
        (stride fuel sheps a shep (k * a.segment_size) max_count)
stride-Covers zero sheps a shep max_count k r h enough t = absurd (omega arith)
stride-Covers (suc fuel) sheps a shep max_count k r h enough t =
    let s = advance-Sought fuel sheps a shep max_count k r h (omega arith) t in
    let next : ℕ = s.seg * a.segment_size in
    let chunk : ℕ × ℕ = (k * a.segment_size, chunk_end a (k * a.segment_size) max_count) in
    let first : (i : ℕ)
        → within i chunk + want sheps a shep next max_count i
          ≡ want sheps a shep (k * a.segment_size) max_count i =
      λ i.
        ap (λ n. within i (k * a.segment_size, n) + want sheps a shep next max_count i)
          (chunk_end_lem sheps a max_count k r h)
        ∙ chunk-want sheps a shep max_count k s.seg i r.any t s.above s.blank in
    elim s.outcome [
      | inr (end, e) ↦ record {
        ranges = chunk ∷ [];
        given = stride_last fuel sheps a shep (k * a.segment_size) max_count e;
        once = λ i.
            ap (λ n. within i chunk + n) (sym (want_none sheps a shep next max_count i end))
            ∙ first i;
      }
      | inl (less, mines, e) ↦
          let far = mul-le-mul_right a.segment_size s.above in
          let c =
            stride-Covers fuel sheps a shep max_count s.seg r less (grind (arith, far, r.any))
              mines in
          record {
            ranges = chunk ∷ c.ranges;
            given =
                stride_next fuel sheps a shep (k * a.segment_size) max_count next c.ranges e
                  c.given;
            once = λ i. ap (λ n. within i chunk + n) (c.once i) ∙ first i;
          }
    ]
