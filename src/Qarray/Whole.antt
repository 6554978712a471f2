-- ===== src/Qarray/Whole.antt =====
-- The iterations of src/ds/qarray.c over the arrays whose part of a shepherd is not contiguous.
use native.Mathlib.Nat.{mul-mod_left, mul-le-mul_right}
use qthreads.Loop.{word}
use qthreads.Qarray.{Array}
use qthreads.Qarray.Loops.{is_mine, first_segment, walk, loop_walk}
use qthreads.Qarray.Seek.{IsRange, mine, Sought, seek-Sought, later-Blank, mine-head, step-next}
use qthreads.Qarray.Walk.{want, Covers, stride-Covers, Blank-want, want_none}
use qthreads.Prelude.{
  ℕ, ◌+◌, ◌-◌, ◌*◌, ◌%◌, ◌<◌, ◌≡◌, refl, sym, ◌∙◌, ap, true, false, not, ◌&&◌, Option, [], ltb, leb,
  inl, inr, arith, if_both,
}

earlier-Sought :
    (sheps : ℕ) (a : Array) (shep max_count k : ℕ) (o : Option (Option ℕ))
    → mine sheps a shep k ≡ false
    → Sought sheps a shep max_count (k + 1) o
    → Sought sheps a shep max_count k o
earlier-Sought sheps a shep max_count k o f s = record {
  seg = s.seg;
  above = omega (arith, s.above);
  blank = later-Blank sheps a shep k s.seg f s.blank;
  outcome = s.outcome;
}

boundary-next :
    (sheps : ℕ) (a : Array) (max_count k : ℕ)
    → IsRange sheps a max_count
    → k * a.segment_size < max_count
    → word (k * a.segment_size + (a.segment_size - k * a.segment_size % a.segment_size))
      ≡ (k + 1) * a.segment_size
boundary-next sheps a max_count k r h =
    let m = mul-mod_left k a.segment_size in
    let all : a.segment_size - k * a.segment_size % a.segment_size ≡ a.segment_size =
      omega (arith, m) in
    ap (λ n. word (k * a.segment_size + n)) all ∙ step-next sheps a max_count k r h

first_segment-Sought :
    (fuel sheps : ℕ) (a : Array) (shep max_count k : ℕ)
    → IsRange sheps a max_count
    → k * a.segment_size < max_count
    → max_count < k * a.segment_size + fuel
    → Sought sheps a shep max_count k
        (first_segment fuel sheps a shep (k * a.segment_size) max_count)
unfolding first_segment
first_segment-Sought fuel sheps a shep max_count k r h enough =
    if_both (Sought sheps a shep max_count k)
      (ltb 0 (k * a.segment_size) && not (is_mine sheps a shep (k * a.segment_size)))
      (λ t.
        let head = mine-head sheps a shep max_count k r h in
        let f : mine sheps a shep k ≡ false = ground (arith, head, t) in
        rw (boundary-next sheps a max_count k r h) (
          earlier-Sought sheps a shep max_count k _ f (
            if_both (Sought sheps a shep max_count (k + 1))
              (leb max_count ((k + 1) * a.segment_size))
              (λ e. record {
                seg = k + 1;
                above = omega arith;
                blank = λ q low high. absurd (omega arith);
                outcome = inr (ground (arith, e), refl);
              })
              (λ e.
                seek-Sought fuel sheps a shep max_count (k + 1) r (ground (arith, e))
                  (grind (arith, r.any))))))
      (λ f. seek-Sought fuel sheps a shep max_count k r h enough)

pub walk-Covers :
    (fuel sheps : ℕ) (a : Array) (shep max_count k : ℕ)
    → IsRange sheps a max_count
    → k * a.segment_size < max_count
    → max_count < k * a.segment_size + fuel
    → Covers sheps a shep
        (k * a.segment_size)
        max_count
        (walk fuel sheps a shep (k * a.segment_size) max_count)
unfolding walk
walk-Covers fuel sheps a shep max_count k r h enough =
    let s = first_segment-Sought fuel sheps a shep max_count k r h enough in
    let later : (i : ℕ)
        → want sheps a shep (s.seg * a.segment_size) max_count i
          ≡ want sheps a shep (k * a.segment_size) max_count i =
      λ i. Blank-want sheps a shep max_count k s.seg i r.any s.above s.blank in
    elim s.outcome [
      | inr (end, e) ↦ record {
        ranges = [];
        given = rw (walk, e) refl;
        once = λ i. sym (want_none sheps a shep (s.seg * a.segment_size) max_count i end) ∙ later i;
      }
      | inl (less, mines, e) ↦
          let far = mul-le-mul_right a.segment_size s.above in
          let c =
            stride-Covers fuel sheps a shep max_count s.seg r less (omega (arith, far)) mines in
          record { ranges = c.ranges; given = rw (walk, e) c.given; once = λ i. c.once i ∙ later i }
    ]

-- The first element is before the end, as the assertion has it.
pub loop_walk-Covers :
    (fuel sheps : ℕ) (a : Array) (shep max_count k : ℕ)
    → IsRange sheps a max_count
    → k * a.segment_size < max_count
    → max_count < k * a.segment_size + fuel
    → Covers sheps a shep
        (k * a.segment_size)
        max_count
        (loop_walk fuel sheps a shep (k * a.segment_size) max_count)
unfolding loop_walk
loop_walk-Covers fuel sheps a shep max_count k r h enough =
    let s = first_segment-Sought fuel sheps a shep max_count k r h enough in
    let later : (i : ℕ)
        → want sheps a shep (s.seg * a.segment_size) max_count i
          ≡ want sheps a shep (k * a.segment_size) max_count i =
      λ i. Blank-want sheps a shep max_count k s.seg i r.any s.above s.blank in
    elim s.outcome [
      | inr (end, e) ↦ record {
        ranges = [];
        given = rw (loop_walk, e) refl;
        once = λ i. sym (want_none sheps a shep (s.seg * a.segment_size) max_count i end) ∙ later i;
      }
      | inl (less, mines, e) ↦
          let below : ltb (s.seg * a.segment_size) max_count ≡ true = ground (arith, less) in
          let far = mul-le-mul_right a.segment_size s.above in
          let c =
            stride-Covers fuel sheps a shep max_count s.seg r less (omega (arith, far)) mines in
          record {
            ranges = c.ranges;
            given = rw (loop_walk, e, below) c.given;
            once = λ i. c.once i ∙ later i;
          }
    ]
