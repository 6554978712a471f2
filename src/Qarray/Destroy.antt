-- ===== src/Qarray/Destroy.antt =====
-- `chunk_distribution_tracker` of src/ds/qarray.c after an array is made and unmade.
use native.Mathlib.Nat.{div-add-mod'}
use qthreads.Loop.{word}
use qthreads.Qarray.{Array, DistType, segment_count, unit_of}
use qthreads.Qarray.Create.{
  Distribution, Tracker, Machine, track, dist_type_of, dist_shep_of, segment_of, track_all,
  tag_fits, unassigned, create, destroy,
}
use qthreads.Qarray.Tracker.{
  owned, segidx-same, assigned-tracks, assign-assigned, assigned, unassign-tracks,
}
use qthreads.Prelude.{
  ℕ, zero, suc, ◌+◌, ◌-◌, ◌*◌, ◌/◌, ◌%◌, ◌^◌, ◌≤◌, ◌<◌, ◌≡◌, inl, inr, refl, ◌∙◌, ap, Bool, true,
  false, ◌||◌, Option, none, some, ◌==◌, if◌then◌else◌, arith, Bool-cases, on_false, on_some,
  if_both,
}

abbrev is_same : DistType → Bool
is_same DistType.all_same = true
is_same DistType.fixed_hash = false
is_same DistType.fixed_fields = false
is_same DistType.dist = false

same_choice :
    {A : Type 0} (k : DistType) (x y : A)
    → elim k [ DistType.all_same ↦ x | _ ↦ y ] ≡ (if is_same k then x else y)
same_choice DistType.all_same x y = refl
same_choice DistType.fixed_hash x y = refl
same_choice DistType.fixed_fields x y = refl
same_choice DistType.dist x y = refl

is_same_iff : (k : DistType) → is_same k ≡ true → k ≡ DistType.all_same
is_same_iff DistType.all_same e = refl
is_same_iff DistType.fixed_hash e = absurd (let h = e in cc)
is_same_iff DistType.fixed_fields e = absurd (let h = e in cc)
is_same_iff DistType.dist e = absurd (let h = e in cc)

-- What an array leaves in the count of a shepherd.
abbrev pub left_over : Machine → Distribution → Tracker → ℕ → ℕ → ℕ
left_over m d t segments s = elim (dist_shep_of m d t) [
  | none ↦ 0
  | some k ↦ if k == s then segments else 0
]

pub segment_count_le : (count size : ℕ) → 0 < size → segment_count count size ≤ count
unfolding segment_count
segment_count_le count size pos =
    let e = div-add-mod' count size in
    if_both (λ n. count / size + n ≤ count) (count % size == 0) (λ t. grind (arith, e))
      (λ f. let rest : 0 < count % size = ground (arith, f) in grind (arith, e, rest))

pub owned_same :
    (sheps : ℕ) (a : Array) (s seg left : ℕ)
    → a.dist_type ≡ DistType.all_same
    → owned sheps a s seg left ≡ (if a.dist_shep == s then left else 0)
owned_same sheps a s seg zero e = ground arith
owned_same sheps a s seg (suc left) e =
    let f = segidx-same sheps a seg e in
    let g = owned_same sheps a s (seg + 1) left e in rw f (ground (arith, g))

option_track :
    (o : Option ℕ) (n : ℕ) (t : Tracker) (s : ℕ)
    → t s < 2 ^ 64
    → (elim o as (λ _. Tracker) [ none ↦ t | some k ↦ track k n t ]) s
      ≡ word (t s + elim o [ none ↦ 0 | some k ↦ if k == s then n else 0 ])
unfolding track word
option_track none n t s h = omega (arith, h)
option_track (some k) n t s h = elim (Bool-cases (k == s)) [
  | inl y ↦
      let same_count = ap t (let e : k ≡ s = ground (arith, y) in e) in
      rw y (omega (arith, same_count))
  | inr f ↦ rw f (omega (arith, h))
]

track_all-word :
    (m : Machine) (d : Distribution) (segments : ℕ) (t : Tracker) (s : ℕ)
    → t s < 2 ^ 64
    → track_all m d segments t s ≡ word (t s + left_over m d t segments s)
unfolding track_all
track_all-word m d segments t s h = option_track (dist_shep_of m d t) segments t s h

pub untrack-many :
    (t : Tracker) (shep n s b : ℕ)
    → n < 2 ^ 64
    → t s ≡ word (b + (if shep == s then n else 0))
    → track shep (word (2 ^ 64 - n)) t s ≡ word b
unfolding track word
untrack-many t shep n s b small h = elim (Bool-cases (shep == s)) [
  | inl y ↦
      let same_count = ap t (let e : shep ≡ s = ground (arith, y) in e) in
      let k = rw y at h in rw y (omega (arith, same_count, k, small))
  | inr f ↦ let k = rw f at h in rw f (omega (arith, k))
]

-- To unmake an array takes back what the loop over its segments added.
destroy-tracks :
    (sheps : ℕ) (a : Array) (t : Tracker) (s b : ℕ)
    → segment_count a.count a.segment_size < 2 ^ 64
    → t s ≡ word (b + owned sheps a s 0 (segment_count a.count a.segment_size))
    → destroy sheps a t s ≡ word b
unfolding destroy
destroy-tracks sheps a t s b narrow h =
    let n : ℕ = segment_count a.count a.segment_size in
    ap (λ f. f s) (same_choice a.dist_type (track a.dist_shep (word (2 ^ 64 - n)) t) _)
    ∙ if_both (λ (f : Tracker). f s ≡ word b) (is_same a.dist_type)
        (λ y.
          untrack-many t a.dist_shep n s b narrow
            (h ∙ ap (λ x. word (b + x)) (owned_same sheps a s 0 n (is_same_iff a.dist_type y))))
        (λ _. unassign-tracks n 0 sheps a t s b h)

-- On a shepherd that exists, where the allocation returns an address, a segment has room for an element, each segment of a `DIST`
-- array has room for the number of its shepherd behind its elements, and all counts are below 2 ^ 64,
-- `qarray_create_internal` makes an array of the elements asked for. `qarray_destroy` of it leaves
-- the count of each shepherd as it was before both, but for the one that has all the segments of an
-- `ALL_SAME` array, which is left with their number more than before.
pub destroy-create :
    (m : Machine) (count obj_size : ℕ) (d : Distribution) (tight : Bool) (seg_pages base : ℕ)
    (t : Tracker)
    → m.here < m.sheps
    → 0 < count
    → 0 < obj_size
    → count < 2 ^ 64
    → 0 < (segment_of m d seg_pages (unit_of tight obj_size)).1
    → ((n : ℕ) → m.room n ≡ some base)
    → (dist_type_of d ≡ DistType.dist
        → (seg : ℕ)
        → seg < segment_count count (segment_of m d seg_pages (unit_of tight obj_size)).1
        → tag_fits
            (unassigned m d count
              (unit_of tight obj_size)
              (segment_of m d seg_pages (unit_of tight obj_size))
              base
              t)
            seg
          ≡ true)
    → ((s : ℕ) → t s < 2 ^ 64)
    → (a : Array) × (after : Tracker) × (create m count obj_size d tight seg_pages t
        ≡ some (a, after))
      × (a.count ≡ count)
      × ((s : ℕ)
          → destroy m.sheps a after s
            ≡ word (t s + left_over m d t (segment_count a.count a.segment_size) s))
unfolding create unassigned
destroy-create m count obj_size d tight seg_pages base t exists some_count some_size narrow room
      found fits small =
    let unit : ℕ = unit_of tight obj_size in
    let layout : ℕ × ℕ = segment_of m d seg_pages unit in
    let n : ℕ = segment_count count layout.1 in
    let tracked : Tracker = track_all m d n t in
    let a : Array = unassigned m d count unit layout base t in
    let r : (ℕ → ℕ) × Tracker = assigned n 0 m d n a (a.tags, tracked) in
    (
      record a { tags = r.0 },
      r.1,
      on_false (λ (x : Option (Array × Tracker)). x ≡ some (record a { tags = r.0 }, r.1))
          {b = count == 0 || obj_size == 0} none (ground arith)
          (rw (found (word (n * layout.0))) (
            on_some (λ (x : Option (Array × Tracker)). x ≡ some (record a { tags = r.0 }, r.1)) none
              (λ o. some (record a { tags = o.0 }, o.1))
              (assign-assigned n 0 m d n a a.tags tracked (λ e q k. fits e q (omega (arith, k))))
              refl)),
      refl,
      λ s.
          destroy-tracks m.sheps (record a { tags = r.0 }) r.1 s (t s + left_over m d t n s)
            (omega (arith, segment_count_le count layout.1 room, narrow))
            (assigned-tracks n 0 m d n a a.tags tracked s (t s + left_over m d t n s) refl
              (track_all-word m d n t s (small s))),
    )
