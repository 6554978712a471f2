-- ===== src/Qarray/Move.antt =====
-- `qarray_set_shepof` of src/ds/qarray.c: a segment, or a whole array, goes to another shepherd.
use qthreads.Loop.{word}
use qthreads.Qarray.{Array, DistType, shepof_segidx, segment_count}
use qthreads.Qarray.Create.{Tracker, track, set_shepof}
use qthreads.Qarray.Place.{div_lt_count}
use qthreads.Qarray.Tracker.{owned, segidx-same, segidx-tag, track-word, untrack-word}
use qthreads.Qarray.Destroy.{owned_same, untrack-many, segment_count_le}
use qthreads.Prelude.{
  ℕ, zero, suc, ◌+◌, ◌-◌, ◌/◌, ◌^◌, ◌≤◌, ◌<◌, ◌≡◌, ◌≢◌, ◌⊎◌, inl, inr, refl, sym, ◌∙◌, ap, ◌==◌,
  ltb, if◌then◌else◌, update, update_same, update_ne, arith, eq_or_ne, on_false, on_true, if_both,
  Option, none, some, true, false, not, ◌&&◌,
}

-- The tracker counts the segments of an array on each shepherd, beside those of the other arrays.
unfoldable pub IsCounted : ℕ → Array → (ℕ → ℕ) → Tracker → Type 0
IsCounted sheps a others t =
    (s : ℕ) → t s ≡ word (others s + owned sheps a s 0 (segment_count a.count a.segment_size))

-- Segments that do not move count as before.
owned_elsewhere :
    (sheps : ℕ) (a : Array) (s seg shep from left : ℕ)
    → a.dist_type ≡ DistType.dist
    → seg < from
    → owned sheps (record a { tags = update a.tags seg shep }) s from left
      ≡ owned sheps a s from left
owned_elsewhere sheps a s seg shep from zero e h = refl
owned_elsewhere sheps a s seg shep from (suc left) e h =
    let f =
      segidx-tag sheps (record a { tags = update a.tags seg shep }) from e
      ∙ update_ne a.tags seg from shep (λ c. omega (arith, h, c))
      ∙ sym (segidx-tag sheps a from e) in
    let g = owned_elsewhere sheps a s seg shep (from + 1) left e (omega (arith, h)) in
    ap
      (λ x.
        (if x == s then 1 else 0)
        + owned sheps (record a { tags = update a.tags seg shep }) s (from + 1) left)
      f
    ∙ ap (λ n. (if shepof_segidx sheps a from == s then 1 else 0) + n) g

-- The segment that moves counts for its new shepherd and no longer for the one before.
owned-moved :
    (sheps : ℕ) (a : Array) (s seg shep from left : ℕ)
    → a.dist_type ≡ DistType.dist
    → from ≤ seg
    → seg < from + left
    → owned sheps (record a { tags = update a.tags seg shep }) s from left
        + (if a.tags seg == s then 1 else 0)
      ≡ (if shep == s then 1 else 0) + owned sheps a s from left
owned-moved sheps a s seg shep from zero e low high = absurd (omega (arith, low, high))
owned-moved sheps a s seg shep from (suc left) e low high =
    let b : Array = record a { tags = update a.tags seg shep } in
    let old = segidx-tag sheps a from e in
    elim (eq_or_ne seg from) [
      | inl c ↦
          let new : shepof_segidx sheps b from ≡ shep =
            segidx-tag sheps b from e
            ∙ ap (λ q. update a.tags seg shep q) (sym c)
            ∙ update_same a.tags seg shep in
          let rest = owned_elsewhere sheps a s seg shep (from + 1) left e (omega (arith, c)) in
          let tag = ap a.tags c in rw (new, old, rest, tag) (omega arith)
      | inr n ↦
          let new : shepof_segidx sheps b from ≡ a.tags from =
            segidx-tag sheps b from e ∙ update_ne a.tags seg from shep n in
          let rest =
            owned-moved sheps a s seg shep (from + 1) left e (omega (arith, low, n))
              (omega (arith, high)) in
          rw (new, old) (omega (arith, rest))
    ]

-- What `qarray_set_shepof` of an element promises.
pub record Moved (sheps : ℕ) (a : Array) (i shep : ℕ) (others : ℕ → ℕ) (r : Array × Tracker)
    : Type 0 where
  pub there : shepof_segidx sheps r.0 (i / a.segment_size) ≡ shep
  pub stay :
      a.dist_type ≡ DistType.dist
      → (q : ℕ) → q ≢ i / a.segment_size
      → shepof_segidx sheps r.0 q ≡ shepof_segidx sheps a q
  pub counted : IsCounted sheps r.0 others r.1

unmoved-Moved :
    (sheps : ℕ) (a : Array) (i shep : ℕ) (others : ℕ → ℕ) (t : Tracker)
    → shepof_segidx sheps a (i / a.segment_size) ≡ shep
    → IsCounted sheps a others t
    → Moved sheps a i shep others (a, t)
unmoved-Moved sheps a i shep others t e c = record { there = e; stay = λ k q n. refl; counted = c }

tag-Moved :
    (sheps : ℕ) (a : Array) (i shep : ℕ) (others : ℕ → ℕ) (t : Tracker)
    → a.dist_type ≡ DistType.dist
    → i / a.segment_size < segment_count a.count a.segment_size
    → IsCounted sheps a others t
    → Moved sheps a i shep others (
      record a { tags = update a.tags (i / a.segment_size) shep },
      track (a.tags (i / a.segment_size)) (2 ^ 64 - 1) (track shep 1 t),
    )
unfolding IsCounted
tag-Moved sheps a i shep others t e inside c =
    let seg : ℕ = i / a.segment_size in
    let b : Array = record a { tags = update a.tags seg shep } in
    record {
      there = segidx-tag sheps b seg e ∙ update_same a.tags seg shep;
      stay = λ k q n.
          segidx-tag sheps b q e
          ∙ update_ne a.tags seg q shep (λ h. n (sym h))
          ∙ sym (segidx-tag sheps a q e);
      counted = λ s.
          let left : ℕ = segment_count a.count a.segment_size in
          let total =
            owned-moved sheps a s seg shep 0 left e (omega arith) (omega (arith, inside)) in
          let more = track-word t shep 1 s (others s + owned sheps a s 0 left) (c s) in
          untrack-word (track shep 1 t) (a.tags seg) s (others s) (owned sheps b s 0 left)
            (more ∙ ap word (omega (arith, total)));
    }

same-Moved :
    (sheps : ℕ) (a : Array) (i shep : ℕ) (others : ℕ → ℕ) (t : Tracker)
    → a.dist_type ≡ DistType.all_same
    → segment_count a.count a.segment_size < 2 ^ 64
    → IsCounted sheps a others t
    → Moved sheps a i shep others (
      record a { dist_shep = shep },
      track a.dist_shep
          (word (2 ^ 64 - segment_count a.count a.segment_size))
          (track shep (segment_count a.count a.segment_size) t),
    )
unfolding IsCounted
same-Moved sheps a i shep others t e small c =
    let b : Array = record a { dist_shep = shep } in
    let n : ℕ = segment_count a.count a.segment_size in
    record {
      there = segidx-same sheps b (i / a.segment_size) e;
      stay = λ k q h. absurd (let f = sym k ∙ e in cc);
      counted = λ s.
          let old = owned_same sheps a s 0 n e in
          let new = owned_same sheps b s 0 n e in
          let more = track-word t shep n s (others s + owned sheps a s 0 n) (c s) in
          untrack-many (track shep n t) a.dist_shep n s (others s + owned sheps b s 0 n) small
            (more ∙ ap word (omega (arith, old, new)));
    }

-- The branch of `qarray_set_shepof` for either kind of array.
set_kind :
    {A : Type 0} {k : DistType}
    → (k ≡ DistType.all_same) ⊎ (k ≡ DistType.dist)
    → (P : A → Type 0) (w x y : A) → (k ≡ DistType.all_same → P x)
    → (k ≡ DistType.dist → P y)
    → P (elim k [
      | DistType.fixed_fields ↦ w
      | DistType.fixed_hash ↦ w
      | DistType.all_same ↦ x
      | DistType.dist ↦ y
    ])
set_kind (inl e) P w x y f g = rw e (f e)
set_kind (inr e) P w x y f g = rw e (g e)

-- `qarray_set_shepof` for an element of an `ALL_SAME` or `DIST` array, where the shepherd named and that
-- of the segment exist, ends with no failed assertion: the segment then belongs to the shepherd named; in a `DIST` array every other segment keeps its shepherd; and the tracker, if it
-- counted the segments of the array on each shepherd, does so after it.
pub set_shepof-Moved :
    (sheps : ℕ) (a : Array) (i shep : ℕ) (others : ℕ → ℕ) (t : Tracker)
    → (a.dist_type ≡ DistType.all_same) ⊎ (a.dist_type ≡ DistType.dist)
    → 0 < a.segment_size
    → i < a.count
    → a.count < 2 ^ 64
    → shep < sheps
    → shepof_segidx sheps a (i / a.segment_size) < sheps
    → IsCounted sheps a others t
    → (r : Array × Tracker) × (set_shepof sheps i shep (a, t) ≡ some r)
      × Moved sheps a i shep others r
unfolding set_shepof
set_shepof-Moved sheps a i shep others t kind any inside narrow exists owned_now c =
    let few = segment_count_le a.count a.segment_size any in
    let here = div_lt_count i a.count a.segment_size any inside in
    let Goal : Option (Array × Tracker) → Type 0 =
      λ o. (r : Array × Tracker) × (o ≡ some r) × Moved sheps a i shep others r in
    on_false Goal {b = ltb a.count i} (some (a, t)) (ground (arith, inside)) (
      set_kind kind Goal _ _ _
        (λ e.
          let same = segidx-same sheps a (i / a.segment_size) e in
          let both : (ltb shep sheps && ltb a.dist_shep sheps) ≡ true =
            ground (arith, exists, owned_now, same) in
          if_both Goal (a.dist_shep == shep)
            (λ y.
              ((a, t), refl, unmoved-Moved sheps a i shep others t (same ∙ ground (arith, y)) c))
            (λ _.
              on_true Goal {b = ltb shep sheps && ltb a.dist_shep sheps} none both
                (_, refl, same-Moved sheps a i shep others t e (omega (arith, few, narrow)) c)))
        (λ e.
          let tag = segidx-tag sheps a (i / a.segment_size) e in
          let there : not (ltb (a.tags (i / a.segment_size)) sheps) ≡ false =
            ground (arith, owned_now, tag) in
          on_false Goal {b = not (ltb (a.tags (i / a.segment_size)) sheps)} none there (
            if_both Goal (a.tags (i / a.segment_size) == shep)
              (λ y.
                ((a, t), refl, unmoved-Moved sheps a i shep others t (tag ∙ ground (arith, y)) c))
              (λ _.
                on_true Goal {b = ltb shep sheps} none (ground (arith, exists))
                  (_, refl, tag-Moved sheps a i shep others t e here c)))))
