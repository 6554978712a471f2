-- ===== src/Qarray/Tracker.antt =====
-- The segments of each shepherd that src/ds/qarray.c counts in `chunk_distribution_tracker`.
use qthreads.Loop.{word}
use qthreads.Qarray.{Array, DistType, shepof_segidx}
use qthreads.Qarray.Create.{
  Distribution, want_fixed_hash, want_fixed_fields, want_all_same, want_dist, dist_stripes,
  dist_fields, dist_rand, dist_least, all_local, all_rand, all_least, Tracker, Machine, track,
  dist_type_of, target, tag_fits, put_tag, assign, unassign,
}
use qthreads.Qarray.Owner.{segidx-owner}
use qthreads.Prelude.{
  ℕ, zero, suc, ◌+◌, ◌-◌, ◌%◌, ◌^◌, ◌<◌, ◌≡◌, refl, sym, ◌∙◌, ap, ◌==◌, if◌then◌else◌, update,
  update_same, update_ne, arith, Bool-cases, inl, inr, Bool, true, Option, none, some, on_some,
}

-- How many of `left` segments, from `seg` on, belong to a shepherd.
abbrev pub owned : ℕ → Array → ℕ → ℕ → ℕ → ℕ
owned sheps a s seg zero = 0
owned sheps a s seg (suc left) =
    (if shepof_segidx sheps a seg == s then 1 else 0) + owned sheps a s (seg + 1) left

segidx-hash :
    (sheps : ℕ) (a : Array) (seg : ℕ)
    → a.dist_type ≡ DistType.fixed_hash
    → shepof_segidx sheps a seg ≡ seg % sheps
unfolding shepof_segidx
segidx-hash sheps a seg e = rw e refl

pub segidx-same :
    (sheps : ℕ) (a : Array) (seg : ℕ)
    → a.dist_type ≡ DistType.all_same
    → shepof_segidx sheps a seg ≡ a.dist_shep
unfolding shepof_segidx
segidx-same sheps a seg e = rw e refl

pub segidx-tag :
    (sheps : ℕ) (a : Array) (seg : ℕ)
    → a.dist_type ≡ DistType.dist
    → shepof_segidx sheps a seg ≡ a.tags seg
unfolding shepof_segidx
segidx-tag sheps a seg e = rw e refl

-- The numbers stored where there is room for them.
unfoldable pub stored : Distribution → ℕ → ℕ → (ℕ → ℕ) → ℕ → ℕ
stored d seg shep tags = elim (dist_type_of d) [ DistType.dist ↦ update tags seg shep | _ ↦ tags ]

unfoldable pub assigned :
    ℕ → ℕ → Machine → Distribution → ℕ → Array → (ℕ → ℕ) × Tracker → (ℕ → ℕ) × Tracker
assigned zero seg m d segments a (tags, t) = (tags, t)
assigned (suc left) seg m d segments a (tags, t) =
    let shep = target m d segments a t seg in
    assigned left (seg + 1) m d segments a (stored d seg shep tags, track shep 1 t)

stored_kind :
    (k : DistType) (b : Bool) (x y : ℕ → ℕ)
    → (k ≡ DistType.dist → b ≡ true)
    → (elim k [ DistType.dist ↦ if b then some x else none | _ ↦ some y ])
      ≡ some (elim k as (λ _. ℕ → ℕ) [ DistType.dist ↦ x | _ ↦ y ])
stored_kind DistType.dist b x y h = rw (h refl) refl
stored_kind DistType.fixed_hash b x y h = refl
stored_kind DistType.fixed_fields b x y h = refl
stored_kind DistType.all_same b x y h = refl

put_tag-stored :
    (d : Distribution) (a : Array) (seg shep : ℕ) (tags : ℕ → ℕ)
    → (dist_type_of d ≡ DistType.dist → tag_fits a seg ≡ true)
    → put_tag d a seg shep tags ≡ some (stored d seg shep tags)
unfolding put_tag stored
put_tag-stored d a seg shep tags h =
    stored_kind (dist_type_of d) (tag_fits a seg) (update tags seg shep) tags h

-- Where each segment has room for the number of its shepherd.
pub assign-assigned :
    (left seg : ℕ) (m : Machine) (d : Distribution) (segments : ℕ) (a : Array) (tags : ℕ → ℕ)
    (t : Tracker)
    → (dist_type_of d ≡ DistType.dist → (q : ℕ) → q < seg + left → tag_fits a q ≡ true)
    → assign left seg m d segments a (tags, t) ≡ some (assigned left seg m d segments a (tags, t))
unfolding assign assigned
assign-assigned zero seg m d segments a tags t h = refl
assign-assigned (suc left) seg m d segments a tags t h =
    let shep : ℕ = target m d segments a t seg in
    on_some
      (λ (o : Option ((ℕ → ℕ) × Tracker)).
        o ≡ some (assigned left (seg + 1) m d segments a (stored d seg shep tags, track shep 1 t)))
      none (λ x. assign left (seg + 1) m d segments a (x, track shep 1 t))
      (put_tag-stored d a seg shep tags (λ e. h e seg (omega arith)))
      (assign-assigned left (seg + 1) m d segments a (stored d seg shep tags) (track shep 1 t)
        (λ e q k. h e q (omega (arith, k))))

-- A segment belongs to the shepherd that is chosen for it, whatever is stored in the others.
segidx-target :
    (m : Machine) (d : Distribution) (segments : ℕ) (a : Array) (tags g : ℕ → ℕ) (t : Tracker)
    (seg : ℕ)
    → a.dist_type ≡ dist_type_of d
    → g seg ≡ stored d seg (target m d segments a t seg) tags seg
    → shepof_segidx m.sheps (record a { tags = g }) seg ≡ target m d segments a t seg
unfolding dist_type_of target stored
segidx-target m want_fixed_hash segments a tags g t seg e f =
    segidx-hash m.sheps (record a { tags = g }) seg e
segidx-target m want_fixed_fields segments a tags g t seg e f =
    segidx-owner m.sheps seg (record a { tags = g }) e ∙ sym (segidx-owner m.sheps seg a e)
segidx-target m want_all_same segments a tags g t seg e f =
    segidx-same m.sheps (record a { tags = g }) seg e
segidx-target m all_local segments a tags g t seg e f =
    segidx-same m.sheps (record a { tags = g }) seg e
segidx-target m all_rand segments a tags g t seg e f =
    segidx-same m.sheps (record a { tags = g }) seg e
segidx-target m all_least segments a tags g t seg e f =
    segidx-same m.sheps (record a { tags = g }) seg e
segidx-target m want_dist segments a tags g t seg e f =
    segidx-tag m.sheps (record a { tags = g }) seg e ∙ f ∙ update_same tags seg _
segidx-target m dist_stripes segments a tags g t seg e f =
    segidx-tag m.sheps (record a { tags = g }) seg e ∙ f ∙ update_same tags seg _
segidx-target m dist_fields segments a tags g t seg e f =
    segidx-tag m.sheps (record a { tags = g }) seg e ∙ f ∙ update_same tags seg _
segidx-target m dist_rand segments a tags g t seg e f =
    segidx-tag m.sheps (record a { tags = g }) seg e ∙ f ∙ update_same tags seg _
segidx-target m dist_least segments a tags g t seg e f =
    segidx-tag m.sheps (record a { tags = g }) seg e ∙ f ∙ update_same tags seg _

tags_elsewhere :
    (k : DistType) (x y : ℕ → ℕ) (q : ℕ)
    → x q ≡ y q
    → (elim k as (λ _. ℕ → ℕ) [ DistType.dist ↦ x | _ ↦ y ]) q ≡ y q
tags_elsewhere DistType.dist x y q e = e
tags_elsewhere DistType.fixed_hash x y q e = refl
tags_elsewhere DistType.fixed_fields x y q e = refl
tags_elsewhere DistType.all_same x y q e = refl

assigned_below :
    (left seg : ℕ) (m : Machine) (d : Distribution) (segments : ℕ) (a : Array) (tags : ℕ → ℕ)
    (t : Tracker) (q : ℕ)
    → q < seg
    → (assigned left seg m d segments a (tags, t)).0 q ≡ tags q
unfolding assigned stored
assigned_below zero seg m d segments a tags t q h = refl
assigned_below (suc left) seg m d segments a tags t q h =
    assigned_below left (seg + 1) m d segments a _ _ q (omega (arith, h))
    ∙ tags_elsewhere (dist_type_of d) (update tags seg (target m d segments a t seg)) tags q
        (update_ne tags seg q _ (λ e. omega (arith, h, e)))

pub track-word :
    (t : Tracker) (shep n s b : ℕ)
    → t s ≡ word b
    → track shep n t s ≡ word (b + (if shep == s then n else 0))
unfolding track word
track-word t shep n s b h = elim (Bool-cases (shep == s)) [
  | inl y ↦
      let same_count = ap t (let e : shep ≡ s = ground (arith, y) in e) in
      rw y (omega (arith, same_count, h))
  | inr f ↦ rw f (omega (arith, h))
]

pub untrack-word :
    (t : Tracker) (shep s b rest : ℕ)
    → t s ≡ word (b + ((if shep == s then 1 else 0) + rest))
    → track shep (2 ^ 64 - 1) t s ≡ word (b + rest)
unfolding track word
untrack-word t shep s b rest h = elim (Bool-cases (shep == s)) [
  | inl y ↦
      let same_count = ap t (let e : shep ≡ s = ground (arith, y) in e) in
      let k = rw y at h in rw y (omega (arith, same_count, k))
  | inr n ↦ let k = rw n at h in rw n (omega (arith, k))
]

-- The loop adds to the count of a shepherd the segments it gets.
pub assigned-tracks :
    (left seg : ℕ) (m : Machine) (d : Distribution) (segments : ℕ) (a : Array) (tags : ℕ → ℕ)
    (t : Tracker) (s b : ℕ)
    → a.dist_type ≡ dist_type_of d
    → t s ≡ word b
    → (assigned left seg m d segments a (tags, t)).1 s
      ≡ word (
          b
          + owned m.sheps
              (record a { tags = (assigned left seg m d segments a (tags, t)).0 })
              s
              seg
              left)
unfolding assigned track
assigned-tracks zero seg m d segments a tags t s b e h =
    h ∙ ap word (let n : b ≡ b + 0 = omega arith in n)
assigned-tracks (suc left) seg m d segments a tags t s b e h =
    let shep : ℕ = target m d segments a t seg in
    let g : ℕ → ℕ = (assigned (suc left) seg m d segments a (tags, t)).0 in
    let own : shepof_segidx m.sheps (record a { tags = g }) seg ≡ shep =
      segidx-target m d segments a tags g t seg e
        (assigned_below left (seg + 1) m d segments a _ _ seg (omega arith)) in
    let one : ℕ = if shep == s then 1 else 0 in
    let next = track-word t shep 1 s b h in
    let rest : ℕ = owned m.sheps (record a { tags = g }) s (seg + 1) left in
    let ih =
      assigned-tracks left (seg + 1) m d segments a (stored d seg shep tags) (track shep 1 t) s
        (b + one) e next in
    let swap : b + one + rest ≡ b + (one + rest) = omega arith in
    ih ∙ ap word (swap ∙ ap (λ x. b + ((if x == s then 1 else 0) + rest)) (sym own))

-- The loop takes from the count of a shepherd the segments it has.
pub unassign-tracks :
    (left seg sheps : ℕ) (a : Array) (t : Tracker) (s b : ℕ)
    → t s ≡ word (b + owned sheps a s seg left)
    → unassign left seg sheps a t s ≡ word b
unfolding unassign
unassign-tracks zero seg sheps a t s b h = h ∙ ap word (let n : b + 0 ≡ b = omega arith in n)
unassign-tracks (suc left) seg sheps a t s b h =
    unassign-tracks left (seg + 1) sheps a (track (shepof_segidx sheps a seg) (2 ^ 64 - 1) t) s b
      (untrack-word t (shepof_segidx sheps a seg) s b (owned sheps a s (seg + 1) left) h)
