-- ===== src/Qarray/Create.antt =====
-- How src/ds/qarray.c makes and unmakes an array, and what becomes of `chunk_distribution_tracker`.
use qthreads.Loop.{word}
use qthreads.Qarray.{
  Array, DistType, segment_count, shepof_segidx, unit_of, plain_segment, dist_segment, stripes,
}
use qthreads.Prelude.{
  ℕ, zero, suc, ◌+◌, ◌-◌, ◌*◌, ◌/◌, ◌%◌, ◌^◌, Bool, not, ◌&&◌, ◌||◌, Option, none, some, ◌==◌, ltb,
  leb, if◌then◌else◌, update,
}

-- The values of `distribution_t` as input.
pub data Distribution : Type 0 where
  want_fixed_hash want_fixed_fields want_all_same want_dist dist_stripes dist_fields dist_rand
        dist_least all_local all_rand all_least :
      Distribution

-- The number of segments on each shepherd.
abbrev pub Tracker : Type 0
Tracker = ℕ → ℕ

-- What a creation takes from the rest of the program: the shepherds there are and the one it runs on,
-- the numbers that `random` gives, the size of a page, `qt_lcm`, and the address, if there is one,
-- that the allocation of some bytes returns.
pub record Machine : Type 0 where
  pub sheps : ℕ
  pub here : ℕ
  pub rand : ℕ → ℕ
  pub pagesize : ℕ
  pub lcm : ℕ → ℕ → ℕ
  pub room : ℕ → Option ℕ

-- `qthread_incr`; to subtract is to add `2 ^ 64` less the number.
unfoldable pub track : ℕ → ℕ → Tracker → Tracker
track shep n t = update t shep (word (t shep + n))

-- The shepherd with the fewest segments, of `least` and those from `i` on.
unfoldable pub least_of : ℕ → ℕ → ℕ → Tracker → ℕ
least_of zero i least t = least
least_of (suc left) i least t = least_of left (i + 1) (if ltb (t i) (t least) then i else least) t

unfoldable pub dist_type_of : Distribution → DistType
dist_type_of d = elim d [
  | want_fixed_fields ↦ DistType.fixed_fields
  | want_all_same ↦ DistType.all_same
  | all_local ↦ DistType.all_same
  | all_rand ↦ DistType.all_same
  | all_least ↦ DistType.all_same
  | want_fixed_hash ↦ DistType.fixed_hash
  | want_dist ↦ DistType.dist
  | dist_stripes ↦ DistType.dist
  | dist_fields ↦ DistType.dist
  | dist_rand ↦ DistType.dist
  | dist_least ↦ DistType.dist
]

unfoldable pub segment_of : Machine → Distribution → ℕ → ℕ → ℕ × ℕ
segment_of m d seg_pages unit = elim (dist_type_of d) [
  | DistType.dist ↦ dist_segment m.pagesize seg_pages unit
  | _ ↦ plain_segment m.lcm m.pagesize seg_pages unit
]

-- The shepherd of all segments, where there is one.
unfoldable pub dist_shep_of : Machine → Distribution → Tracker → Option ℕ
dist_shep_of m d t = elim d [
  | want_all_same ↦ some m.here
  | all_local ↦ some m.here
  | all_rand ↦ some (m.rand 0 % 2 ^ 16 % m.sheps)
  | all_least ↦ some (least_of (m.sheps - 1) 1 0 t)
  | _ ↦ none
]

-- `target_shep` of a segment.
unfoldable pub target : Machine → Distribution → ℕ → Array → Tracker → ℕ → ℕ
target m d segments a t seg =
    let per = segments / m.sheps in
    let extras = segments % m.sheps in
    elim d [
      | want_fixed_hash ↦ seg % m.sheps
      | want_fixed_fields ↦ shepof_segidx m.sheps a seg
      | want_dist ↦ m.rand seg % m.sheps
      | dist_rand ↦ m.rand seg % m.sheps
      | dist_fields ↦ if leb extras (seg / (per + 1)) then (seg - extras) / per else seg / (per + 1)
      | dist_stripes ↦ seg % m.sheps
      | dist_least ↦ least_of (m.sheps - 1) 1 0 t
      | want_all_same ↦ a.dist_shep
      | all_local ↦ a.dist_shep
      | all_rand ↦ a.dist_shep
      | all_least ↦ a.dist_shep
    ]

-- The assertion of `qarray_internal_segment_shep`: the number of a shepherd, of two bytes, has room
-- behind the elements of a segment, at an address that is a multiple of 4.
unfoldable pub tag_fits : Array → ℕ → Bool
tag_fits a seg =
    let head = a.base_ptr + seg * a.segment_bytes in
    let ptr = head + a.segment_size * a.unit_size in
    let aligned = if ptr % 4 == 0 then ptr else ptr + (4 - ptr % 4) in
    ltb (aligned + 1) (a.segment_bytes + head)

-- The shepherd of a segment, stored where the array is a `DIST` one: none is that assertion.
unfoldable pub put_tag : Distribution → Array → ℕ → ℕ → (ℕ → ℕ) → Option (ℕ → ℕ)
put_tag d a seg shep tags = elim (dist_type_of d) [
  | DistType.dist ↦ if tag_fits a seg then some (update tags seg shep) else none
  | _ ↦ some tags
]

-- The loop over the segments, from `seg` on.
unfoldable pub assign :
    ℕ → ℕ → Machine → Distribution → ℕ → Array → (ℕ → ℕ) × Tracker → Option ((ℕ → ℕ) × Tracker)
assign zero seg m d segments a (tags, t) = some (tags, t)
assign (suc left) seg m d segments a (tags, t) =
    let shep = target m d segments a t seg in
    let rest : (ℕ → ℕ) → Option ((ℕ → ℕ) × Tracker) =
      λ stored. assign left (seg + 1) m d segments a (stored, track shep 1 t) in
    elim (put_tag d a seg shep tags) [ none ↦ none | some stored ↦ rest stored ]

-- The array before its segments have shepherds.
unfoldable pub unassigned : Machine → Distribution → ℕ → ℕ → ℕ × ℕ → ℕ → Tracker → Array
unassigned m d count unit layout base t =
    let parts = stripes m.sheps (segment_count count layout.1) in
    record {
      unit_size = unit;
      count = count;
      segment_size = layout.1;
      segment_bytes = layout.0;
      base_ptr = base;
      dist_type = dist_type_of d;
      dist_shep = elim (dist_shep_of m d t) [ none ↦ 2 ^ 16 - 1 | some s ↦ s ];
      segs_per_shep = parts.0;
      extras = parts.1;
      tags = λ q. 0;
    }

-- The tracker once the shepherd of all segments is known.
unfoldable pub track_all : Machine → Distribution → ℕ → Tracker → Tracker
track_all m d segments t = elim (dist_shep_of m d t) [ none ↦ t | some s ↦ track s segments t ]

-- `qarray_create_internal`: none where an assertion fails, also for want of memory.
unfoldable pub create :
    Machine → ℕ → ℕ → Distribution → Bool → ℕ → Tracker → Option (Array × Tracker)
create m count obj_size d tight seg_pages t =
    let unit = unit_of tight obj_size in
    let layout = segment_of m d seg_pages unit in
    let segments = segment_count count layout.1 in
    if count == 0 || obj_size == 0 then none else elim (m.room (word (segments * layout.0))) [
      | none ↦ none
      | some base ↦
          let a = unassigned m d count unit layout base t in
          elim (assign segments 0 m d segments a (a.tags, track_all m d segments t)) [
            | none ↦ none
            | some r ↦ some (record a { tags = r.0 }, r.1)
          ]
    ]

-- The loop over the segments of an array that is unmade.
unfoldable pub unassign : ℕ → ℕ → ℕ → Array → Tracker → Tracker
unassign zero seg sheps a t = t
unassign (suc left) seg sheps a t =
    unassign left (seg + 1) sheps a (track (shepof_segidx sheps a seg) (2 ^ 64 - 1) t)

-- `qarray_destroy`
unfoldable pub destroy : ℕ → Array → Tracker → Tracker
destroy sheps a t =
    let segments = segment_count a.count a.segment_size in
    elim a.dist_type [
      | DistType.all_same ↦ track a.dist_shep (word (2 ^ 64 - segments)) t
      | _ ↦ unassign segments 0 sheps a t
    ]

-- `qarray_set_shepof`: none where the assertion fails that the shepherd of the segment exists, or where
-- the tracker has no number for a shepherd. The room for the number was tested at the creation.
unfoldable pub set_shepof : ℕ → ℕ → ℕ → Array × Tracker → Option (Array × Tracker)
set_shepof sheps i shep (a, t) =
    let segments = segment_count a.count a.segment_size in
    let seg = i / a.segment_size in
    if ltb a.count i then some (a, t) else elim a.dist_type [
      | DistType.fixed_fields ↦ some (a, t)
      | DistType.fixed_hash ↦ some (a, t)
      | DistType.all_same ↦
          if a.dist_shep == shep
          then some (a, t)
          else if ltb shep sheps && ltb a.dist_shep sheps
          then some (
            record a { dist_shep = shep },
            track a.dist_shep (word (2 ^ 64 - segments)) (track shep segments t),
          )
          else none
      | DistType.dist ↦
          if not (ltb (a.tags seg) sheps)
          then none
          else if a.tags seg == shep
          then some (a, t)
          else if ltb shep sheps
          then some (
            record a { tags = update a.tags seg shep },
            track (a.tags seg) (2 ^ 64 - 1) (track shep 1 t),
          )
          else none
    ]
