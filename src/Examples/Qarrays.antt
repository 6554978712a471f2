-- ===== src/Examples/Qarrays.antt =====
-- src/ds/qarray.c on arrays of three and four segments of ten elements.
use qthreads.Loop.{span, word}
use qthreads.Qarray.{
  Array, DistType, fixed_hash, fixed_fields, dist, segment_count, elem_nomigrate, shepof_segidx,
  shepof, stripes, unit_of, dist_segment,
}
use qthreads.Qarray.Loops.{
  is_mine, seek, advance, chunk_end, stride, first_segment, pred, outside, strider_range, loop_walk,
  strider, loop_strider, shepherds, spawned, gather, iter, iter_loop,
}
use qthreads.Qarray.Seek.{IsRange}
use qthreads.Qarray.Iterate.{Once, iter_loop-Once}
use qthreads.Qarray.Skipped.{IsEven, iter_loop-skips, part}
use qthreads.Qarray.Walk.{within}
use qthreads.Qarray.Owner.{IsFields}
use qthreads.Qarray.Place.{IsRoomy, elem_nomigrate-apart}
use qthreads.Qarray.Create.{
  Machine, Tracker, dist_rand, create, destroy, dist_type_of, segment_of, set_shepof, tag_fits,
  unassigned,
}
use qthreads.Qarray.Tracker.{owned}
use qthreads.Qarray.Destroy.{left_over, destroy-create}
use qthreads.Qarray.Move.{IsCounted, Moved, set_shepof-Moved}
use qthreads.Prelude.{
  ℕ, false, inr, ◌+◌, ◌*◌, ◌/◌, true, ◌≤◌, ◌<◌, ◌≡◌, refl, some, List, [], ◌∷◌, ◌==◌, if◌then◌else◌,
  inl, arith, total,
}

abbrev array : DistType → ℕ → ℕ → Array
array d count per = record {
  unit_size = 8;
  count = count;
  segment_size = 10;
  segment_bytes = 96;
  base_ptr = 4096;
  dist_type = d;
  dist_shep = 0;
  segs_per_shep = per;
  extras = 0;
  tags = λ q. 0;
}

abbrev hashed : Array
hashed = array fixed_hash 25 1

abbrev fields : Array
fields = array fixed_fields 40 2

hashed-IsRoomy : IsRoomy hashed
unfolding segment_count
hashed-IsRoomy = record { any = omega arith; segment_room = omega arith; narrow = omega arith }

elem_nomigrate-apart_example :
    (p : ℕ) × (q : ℕ) × (elem_nomigrate hashed 9 ≡ some p)
    × (elem_nomigrate hashed 10 ≡ some q)
    × (4096 ≤ p)
    × (p + 8 ≤ q)
    × (q + 8 ≤ 4096 + segment_count 25 10 * 96)
elem_nomigrate-apart_example =
    elem_nomigrate-apart hashed 9 10 hashed-IsRoomy (omega arith) (omega arith)

fields-IsFields : IsFields 2 4 fields
unfolding stripes
fields-IsFields = record { kind = refl; parts = refl }

abbrev crowded : Array
crowded = record (array fixed_fields 30 1) { extras = 3 }

crowded_owners : shepof_segidx 8 crowded 1 ≡ 0
unfolding shepof_segidx
crowded_owners = refl

hashed-IsRange : IsRange 2 hashed 25
hashed-IsRange = record {
  spread = inl refl;
  any = omega arith;
  some_shep = omega arith;
  tagged = λ q. omega arith;
  inside = omega arith;
  narrow = omega arith;
}

iter_loop-Once_example :
    Once (1 * 10) 25 (iter_loop 16 2 hashed (1 * 10) 25)
    × Once (1 * 10) 25 (iter 16 2 hashed (1 * 10) 25)
iter_loop-Once_example = iter_loop-Once 16 2 hashed 25 1 hashed-IsRange (omega arith) (omega arith)

fields-IsEven : IsEven 2 fields
fields-IsEven = record {
  kind = refl;
  no_extras = refl;
  size_any = omega arith;
  per_any = omega arith;
  some_shep = omega arith;
  full = refl;
  narrow = omega arith;
}

iter_loop-skips_example :
    (ranges : List (ℕ × ℕ)) × (iter_loop 0 2 fields 0 40 ≡ some ranges)
    × (total (within (1 * part fields + 19)) ranges ≡ (if 19 + 1 == part fields then 0 else 1))
iter_loop-skips_example =
    iter_loop-skips 0 2 fields 1 19 fields-IsEven (omega arith) (omega arith) (omega arith)

-- A range that begins within a segment: elements 10 to 14 are handed over twice, 20 to 24 never.
uneven : iter_loop 26 2 hashed 5 25 ≡ some ((5, 15) ∷ (10, 20) ∷ [])
unfolding iter_loop loop_strider loop_walk spawned shepherds gather first_segment is_mine shepof
    shepof_segidx seek stride advance chunk_end span word
uneven = refl

-- `qarray_iter` leaves out nothing of a `FIXED_FIELDS` array.
every_field : iter 41 2 fields 0 40 ≡ some ((0, 10) ∷ (10, 20) ∷ (20, 30) ∷ (30, 40) ∷ [])
unfolding iter strider spawned shepherds gather outside is_mine shepof shepof_segidx stride advance
    chunk_end span word pred strider_range
every_field = refl

abbrev machine : Machine
machine = record {
  sheps = 2;
  here = 1;
  rand = λ q. q;
  pagesize = 4096;
  lcm = λ a b. a * b;
  room = λ n. some 8192;
}

abbrev empty_tracker : Tracker
empty_tracker = λ s. 0

segment_some : 0 < (segment_of machine dist_rand 1 (unit_of false 12)).1
unfolding segment_of dist_type_of dist_segment unit_of word
segment_some = omega arith

abbrev layout : ℕ × ℕ
layout = segment_of machine dist_rand 1 (unit_of false 12)

tags-fit :
    (seg : ℕ)
    → tag_fits (unassigned machine dist_rand 1000 (unit_of false 12) layout 8192 empty_tracker) seg
      ≡ true
unfolding tag_fits unassigned segment_of dist_type_of dist_segment unit_of word
tags-fit seg = ground arith

destroy-create_example :
    (a : Array) × (after : Tracker) × (create machine 1000 12 dist_rand false 1 empty_tracker
      ≡ some (a, after))
    × (a.count ≡ 1000)
    × ((s : ℕ)
        → destroy 2 a after s
          ≡ word (
              0
              + left_over machine dist_rand empty_tracker (segment_count a.count a.segment_size) s))
destroy-create_example =
    destroy-create machine 1000 12 dist_rand false 1 8192 empty_tracker (omega arith) (omega arith)
      (omega arith) (omega arith) segment_some (λ n. refl) (λ e seg few. tags-fit seg)
      (λ s. omega arith)

abbrev tagged : Array
tagged = array dist 25 1

abbrev alone : Tracker
alone = λ s. word (0 + owned 2 tagged s 0 (segment_count 25 10))

alone-IsCounted : IsCounted 2 tagged (λ s. 0) alone
unfolding IsCounted
alone-IsCounted = λ s. refl

tagged_owner : shepof_segidx 2 tagged (12 / 10) < 2
unfolding shepof_segidx
tagged_owner = omega arith

set_shepof-Moved_example :
    (r : Array × Tracker) × (set_shepof 2 12 1 (tagged, alone) ≡ some r)
    × Moved 2 tagged 12 1 (λ s. 0) r
set_shepof-Moved_example =
    set_shepof-Moved 2 tagged 12 1 (λ s. 0) alone (inr refl) (omega arith) (omega arith)
      (omega arith) (omega arith) tagged_owner alone-IsCounted
