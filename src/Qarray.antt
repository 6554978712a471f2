-- ===== src/Qarray.antt =====
-- src/ds/qarray.c: arrays whose segments belong to shepherds. A `size_t` is a number below 2 ^ 64;
-- `word` is the wrap-around.
pub mod Place
pub mod Owner
pub mod Create
pub mod Loops
pub mod Seek
pub mod Cover
pub mod Walk
pub mod Whole
pub mod Iterate
pub mod Tracker
pub mod Destroy
pub mod Move
pub mod Skipped
use qthreads.Loop.{word}
use qthreads.Prelude.{
  ℕ, zero, suc, ◌+◌, ◌-◌, ◌*◌, ◌/◌, ◌%◌, ◌^◌, ◌≡◌, Bool, true, false, Option, none, some, ◌==◌, ltb,
  leb, if◌then◌else◌, ◌||◌,
}

-- The values of `distribution_t` that an array has once it is made.
pub data DistType : Type 0 where
  fixed_hash fixed_fields all_same dist : DistType

-- `qarray`, less what only one kind uses: `dist_shep` of `ALL_SAME`, and `segs_per_shep` and `extras`
-- of `FIXED_FIELDS`, stand side by side. `tags` is the shepherd that is stored in each segment of a
-- `DIST` array.
pub record Array : Type 0 where
  pub unit_size : ℕ
  pub count : ℕ
  pub segment_size : ℕ
  pub segment_bytes : ℕ
  pub base_ptr : ℕ
  pub dist_type : DistType
  pub dist_shep : ℕ
  pub segs_per_shep : ℕ
  pub extras : ℕ
  pub tags : ℕ → ℕ

-- `count / segment_size + ((count % segment_size) ? 1 : 0)`
unfoldable pub segment_count : ℕ → ℕ → ℕ
segment_count count size = count / size + (if count % size == 0 then 0 else 1)

-- `qarray_elem_nomigrate`
unfoldable pub elem_nomigrate : Array → ℕ → Option ℕ
elem_nomigrate a index =
    let segment_num = index / a.segment_size in
    if ltb a.count index
    then none
    else some (
        word (
          a.base_ptr
          + (segment_num * a.segment_bytes + (index - segment_num * a.segment_size) * a.unit_size)))

-- `qarray_internal_shepof_segidx` among `sheps` shepherds.
unfoldable pub shepof_segidx : ℕ → Array → ℕ → ℕ
shepof_segidx sheps a seg = elim a.dist_type [
  | all_same ↦ a.dist_shep
  | fixed_fields ↦
      if ltb (seg / (a.segs_per_shep + 1)) a.extras
      then seg / (a.segs_per_shep + 1)
      else (seg - a.extras) / a.segs_per_shep
  | fixed_hash ↦ seg % sheps
  | dist ↦ a.tags seg
]

-- `qarray_shepof`: none is `NO_SHEPHERD`.
unfoldable pub shepof : ℕ → Array → ℕ → Option ℕ
shepof sheps a index =
    if ltb index a.count
    then some (elim a.dist_type [
      | all_same ↦ a.dist_shep
      | fixed_fields ↦ shepof_segidx sheps a (index / a.segment_size)
      | fixed_hash ↦ shepof_segidx sheps a (index / a.segment_size)
      | dist ↦ shepof_segidx sheps a (index / a.segment_size)
    ])
    else none

-- The address that `qarray_elem_migrate` returns.
unfoldable pub elem_migrate : Array → ℕ → Option ℕ
elem_migrate a index =
    let segment_num = index / a.segment_size in
    if leb a.count index
    then some (
        word (
          a.base_ptr
          + (segment_num + a.segment_bytes)
          + (index - segment_num * a.segment_size) * a.unit_size))
    else none

-- The size of an element as `qarray_create_internal` chooses it.
unfoldable pub unit_of : Bool → ℕ → ℕ
unit_of tight obj_size =
    if tight
    then obj_size
    else word (obj_size + (if obj_size % 8 == 0 then 0 else 8 - obj_size % 8))

-- The bytes and the elements of a segment that holds no shepherd. `lcm` is `qt_lcm`.
unfoldable pub plain_segment : (ℕ → ℕ → ℕ) → ℕ → ℕ → ℕ → ℕ × ℕ
plain_segment lcm pagesize seg_pages unit =
    let bytes =
      if seg_pages == 0
      then (if ltb (word (16 * pagesize)) unit then lcm unit pagesize else word (16 * pagesize))
      else word (seg_pages * pagesize) in
    (bytes, bytes / unit)

-- The same for a segment that holds its shepherd behind the elements.
unfoldable pub dist_segment : ℕ → ℕ → ℕ → ℕ × ℕ
dist_segment pagesize seg_pages unit =
    let bytes = word ((if seg_pages == 0 then 16 else seg_pages) * pagesize) in
    let size = bytes / unit in
    if ltb (bytes - size * unit) 4
    then (
      if ltb pagesize unit
          then word (
              bytes
              + (2 ^ 64 - unit / pagesize * pagesize)
              + (if unit % pagesize == 0 then pagesize else 0))
          else bytes,
      word (size + (2 ^ 64 - 1)),
    )
    else (bytes, size)

-- `segs_per_shep` and `extras` of `FIXED_FIELDS`.
unfoldable pub stripes : ℕ → ℕ → ℕ × ℕ
stripes sheps segments = (if segments / sheps == 0 then 1 else segments / sheps, segments % sheps)
