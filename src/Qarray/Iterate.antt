-- ===== src/Qarray/Iterate.antt =====
-- The iterations of src/ds/qarray.c over the arrays whose part of a shepherd is not contiguous.
use native.Mathlib.Nat.{mod-lt, mul-div_cancel}
use qthreads.Qarray.{Array, shepof_segidx}
use qthreads.Qarray.Loops.{
  strider, loop_strider, shepherds, spawned, gather, iterated, iter, iter_loop,
}
use qthreads.Qarray.Seek.{IsRange, spread_choice, spread-shepof}
use qthreads.Qarray.Walk.{within, want, Covers, in_segment}
use qthreads.Qarray.Whole.{walk-Covers, loop_walk-Covers}
use qthreads.Prelude.{
  ℕ, zero, suc, ◌+◌, ◌-◌, ◌*◌, ◌/◌, ◌≤◌, ◌<◌, ◌≡◌, refl, sym, subst, ◌∙◌, ap, Option, none, some,
  List, [], ◌∷◌, ◌++◌, ◌==◌, ltb, leb, if◌then◌else◌, inl, inr, arith, Bool-cases, total,
  total-append, if_both, on_true,
}

abbrev between : ℕ → ℕ → ℕ → ℕ
between lo hi i = if leb lo i then (if ltb i hi then 1 else 0) else 0

-- What the striders on some shepherds give.
record Gathered (sheps : ℕ) (a : Array) (lo hi : ℕ) (l : List ℕ) (o : Option (List (ℕ × ℕ)))
    : Type 0 where
  ranges : List (ℕ × ℕ)
  given : o ≡ some ranges
  once : (i : ℕ) → total (within i) ranges ≡ total (λ s. want sheps a s lo hi i) l

gather-Gathered :
    (sheps : ℕ) (a : Array) (lo hi : ℕ) (run : ℕ → Option (List (ℕ × ℕ))) (l : List ℕ)
    → ((s : ℕ) → Covers sheps a s lo hi (run s))
    → Gathered sheps a lo hi l (gather run l)
unfolding gather
gather-Gathered sheps a lo hi run [] f = record { ranges = []; given = refl; once = λ i. refl }
gather-Gathered sheps a lo hi run (s ∷ l) f =
    let c = f s in
    let g = gather-Gathered sheps a lo hi run l f in
    record {
      ranges = c.ranges ++ g.ranges;
      given = rw (gather, c.given, g.given) refl;
      once = λ i.
          total-append (within i) c.ranges g.ranges
          ∙ ap (λ n. n + total (within i) g.ranges) (c.once i)
          ∙ ap (λ n. want sheps a s lo hi i + n) (g.once i);
    }

-- Of a row of shepherds, one at most is the owner.
total-shepherds :
    (own lo hi i from n : ℕ)
    → total
        (λ s. if leb lo i then (if ltb i hi then (if own == s then 1 else 0) else 0) else 0)
        (shepherds from n)
      ≡ (if leb from own then (if ltb own (from + n) then between lo hi i else 0) else 0)
unfolding shepherds
total-shepherds own lo hi i from zero = ground arith
total-shepherds own lo hi i from (suc n) =
    let e = total-shepherds own lo hi i (from + 1) n in ground (arith, e)

segidx-few :
    (sheps : ℕ) (a : Array) (max_count q : ℕ)
    → IsRange sheps a max_count
    → shepof_segidx sheps a q < sheps
unfolding shepof_segidx
segidx-few sheps a max_count q r = elim r.spread [
  | inl e ↦ rw e (mod-lt q r.some_shep)
  | inr e ↦ rw e (r.tagged q)
]

-- The ranges of an iteration hold each element between its bounds once.
pub record Once (lo hi : ℕ) (o : Option (List (ℕ × ℕ))) : Type 0 where
  pub ranges : List (ℕ × ℕ)
  pub given : o ≡ some ranges
  pub once : (i : ℕ) → total (within i) ranges ≡ between lo hi i

every-Once :
    (sheps : ℕ) (a : Array) (lo hi : ℕ) (o : Option (List (ℕ × ℕ)))
    → IsRange sheps a hi
    → Gathered sheps a lo hi (shepherds 0 sheps) o
    → Once lo hi o
every-Once sheps a lo hi o r g = record {
  ranges = g.ranges;
  given = g.given;
  once = λ i.
      let few = segidx-few sheps a hi (i / a.segment_size) r in
      g.once i
      ∙ total-shepherds (shepof_segidx sheps a (i / a.segment_size)) lo hi i 0 sheps
      ∙ ground (arith, few);
}

one-Once :
    (sheps : ℕ) (a : Array) (hi k : ℕ) (o : Option (List (ℕ × ℕ)))
    → IsRange sheps a hi
    → hi ≤ (k + 1) * a.segment_size
    → Gathered sheps a (k * a.segment_size) hi (shepof_segidx sheps a k ∷ []) o
    → Once (k * a.segment_size) hi o
one-Once sheps a hi k o r short g = record {
  ranges = g.ranges;
  given = g.given;
  once = λ i. g.once i ∙ elim (Bool-cases (leb (k * a.segment_size) i)) [
    | inl low ↦ elim (Bool-cases (ltb i hi)) [
      | inl high ↦
          let e =
            in_segment a.segment_size k i r.any (ground (arith, low))
              (ground (arith, high, short)) in
          rw e (ground (arith, low, high))
      | inr high ↦ ground (arith, low, high)
    ]
    | inr low ↦ ground (arith, low)
  ];
}

spawned_spread :
    (sheps : ℕ) (a : Array) (stopat k : ℕ)
    → IsRange sheps a stopat
    → k * a.segment_size < stopat
    → spawned sheps a (k * a.segment_size) stopat
      ≡ some (
          if ltb (stopat - k * a.segment_size) a.segment_size
          then shepof_segidx sheps a k ∷ []
          else shepherds 0 sheps)
unfolding spawned
spawned_spread sheps a stopat k r h =
    let e =
      spread-shepof sheps a (k * a.segment_size) r.spread (omega (arith, h, r.inside))
      ∙ ap (λ q. some (shepof_segidx sheps a q)) (mul-div_cancel k r.any) in
    spread_choice r.spread _ _ _
    ∙ (rw e (
        if_both
          (λ o.
            o
            ≡ some (
                if ltb (stopat - k * a.segment_size) a.segment_size
                then shepof_segidx sheps a k ∷ []
                else shepherds 0 sheps))
          (ltb (stopat - k * a.segment_size) a.segment_size) (λ t. rw t refl) (λ f. rw f refl)))

iterated-Once :
    (run : ℕ → ℕ → Array → ℕ → ℕ → ℕ → Option (List (ℕ × ℕ))) (fuel sheps : ℕ) (a : Array)
    (stopat k : ℕ)
    → ((s : ℕ)
        → Covers sheps a s
            (k * a.segment_size)
            stopat
            (run fuel sheps a s (k * a.segment_size) stopat))
    → IsRange sheps a stopat
    → k * a.segment_size < stopat
    → Once (k * a.segment_size) stopat (iterated run fuel sheps a (k * a.segment_size) stopat)
iterated-Once run fuel sheps a stopat k covers r h =
    let start : ℕ = k * a.segment_size in
    let all : (l : List ℕ)
        → Gathered sheps a start stopat l (gather (λ s. run fuel sheps a s start stopat) l) =
      λ l. gather-Gathered sheps a start stopat (λ s. run fuel sheps a s start stopat) l covers in
    on_true (Once start stopat) {b = leb start stopat} none (ground (arith, h)) (
      rw (spawned_spread sheps a stopat k r h) (
        if_both (λ l. Once start stopat (gather (λ s. run fuel sheps a s start stopat) l))
          (ltb (stopat - start) a.segment_size)
          (λ t. one-Once sheps a stopat k _ r (ground (arith, t)) (all _))
          (λ f. every-Once sheps a start stopat _ r (all _))))

-- In a `FIXED_HASH` or `DIST` array, for a range that begins with a segment: `qarray_iter_loop` and
-- `qarray_iter` come to an end, and the ranges that their striders run through on all the shepherds
-- together hold each element between the two bounds once, and no other element.
pub iter_loop-Once :
    (fuel sheps : ℕ) (a : Array) (stopat k : ℕ)
    → IsRange sheps a stopat
    → k * a.segment_size < stopat
    → stopat < k * a.segment_size + fuel
    → Once (k * a.segment_size) stopat (iter_loop fuel sheps a (k * a.segment_size) stopat)
      × Once (k * a.segment_size) stopat (iter fuel sheps a (k * a.segment_size) stopat)
unfolding iter_loop iter loop_strider strider
iter_loop-Once fuel sheps a stopat k r h enough = (
  iterated-Once loop_strider fuel sheps a stopat k
      (λ s.
        subst (Covers sheps a s (k * a.segment_size) stopat) (sym (spread_choice r.spread _ _ _))
          (loop_walk-Covers fuel sheps a s stopat k r h enough))
      r h,
  iterated-Once strider fuel sheps a stopat k
      (λ s.
        subst (Covers sheps a s (k * a.segment_size) stopat) (sym (spread_choice r.spread _ _ _))
          (walk-Covers fuel sheps a s stopat k r h enough))
      r h,
)
