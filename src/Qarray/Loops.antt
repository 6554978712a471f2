-- ===== src/Qarray/Loops.antt =====
-- The iterations of src/ds/qarray.c over a range of an array. A strider runs on each shepherd; its
-- result is the list of the ranges it hands to the loop function, in order. none is that the fuel
-- is used up, that an assertion fails, or that `NO_SHEPHERD` came out where a shepherd is needed.
use qthreads.Loop.{span, word}
use qthreads.Qarray.{Array, all_same, fixed_fields, fixed_hash, dist, shepof}
use qthreads.Prelude.{
  ℕ, zero, suc, ◌+◌, ◌-◌, ◌*◌, ◌%◌, ◌^◌, Bool, true, false, not, ◌&&◌, ◌||◌, Option, none, some,
  List, [], ◌∷◌, ◌++◌, ◌==◌, ltb, leb, if◌then◌else◌,
}

-- `qarray_shepof(a, count) == shep`. No shepherd is `NO_SHEPHERD`.
unfoldable pub is_mine : ℕ → Array → ℕ → ℕ → Bool
is_mine sheps a shep count = elim (shepof sheps a count) [ none ↦ false | some s ↦ s == shep ]

-- `while (qarray_shepof(a, count) != shep)`: some none is that the range ends before.
unfoldable pub seek : ℕ → ℕ → Array → ℕ → ℕ → ℕ → Option (Option ℕ)
seek zero sheps a shep count max_count = none
seek (suc fuel) sheps a shep count max_count =
    let rest = seek fuel sheps a shep (word (count + a.segment_size)) max_count in
    if is_mine sheps a shep count
    then some (some count)
    else if leb max_count (word (count + a.segment_size))
    then some none
    else rest

-- How `count` goes on after a range: some none is the end.
unfoldable pub advance : ℕ → ℕ → Array → ℕ → ℕ → ℕ → Option (Option ℕ)
advance fuel sheps a shep count max_count =
    let next = word (count + a.segment_size) in
    let hop = word (count + word (a.segment_size * sheps)) in
    elim a.dist_type [
      | fixed_fields ↦ some (if leb max_count next then none else some next)
      | all_same ↦ some (if leb max_count next then none else some next)
      | fixed_hash ↦ some (if leb max_count hop then none else some hop)
      | dist ↦ if leb max_count next then some none else seek fuel sheps a shep next max_count
    ]

-- Where a range ends that begins at `count`.
unfoldable pub chunk_end : Array → ℕ → ℕ → ℕ
chunk_end a count max_count =
    let left = span count max_count in
    word (count + (if ltb a.segment_size left then a.segment_size else left))

-- `while (1)` of `qarray_strider`, and of `qarray_loop_strider` for the arrays whose part of a
-- shepherd is not contiguous.
unfoldable pub stride : ℕ → ℕ → Array → ℕ → ℕ → ℕ → Option (List (ℕ × ℕ))
stride zero sheps a shep count max_count = none
stride (suc fuel) sheps a shep count max_count =
    let rest : ℕ → Option (List (ℕ × ℕ)) = λ next. stride fuel sheps a shep next max_count in
    let chunk : ℕ × ℕ = (count, chunk_end a count max_count) in
    elim (advance fuel sheps a shep count max_count) [
      | none ↦ none
      | some o ↦ elim o [
        | none ↦ some (chunk ∷ [])
        | some next ↦ elim (rest next) [ none ↦ none | some l ↦ some (chunk ∷ l) ]
      ]
    ]

-- Where a strider begins that has to look for its first segment.
unfoldable pub first_segment : ℕ → ℕ → Array → ℕ → ℕ → ℕ → Option (Option ℕ)
first_segment fuel sheps a shep startat stopat =
    let boundary : ℕ = word (startat + (a.segment_size - startat % a.segment_size)) in
    if ltb 0 startat && not (is_mine sheps a shep startat)
    then (if leb stopat boundary then some none else seek fuel sheps a shep boundary stopat)
    else seek fuel sheps a shep startat stopat

-- One less, as `size_t` has it.
unfoldable pub pred : ℕ → ℕ
pred n = word (n + (2 ^ 64 - 1))

-- Whether a shepherd has nothing of a range of a `FIXED_FIELDS` array. `NO_SHEPHERD` is above every
-- shepherd.
unfoldable pub outside : ℕ → Array → ℕ → ℕ → ℕ → Bool
outside sheps a shep startat stopat =
    (elim (shepof sheps a startat) [ none ↦ true | some s ↦ ltb shep s ])
    || (elim (shepof sheps a (pred stopat)) [ none ↦ false | some s ↦ ltb s shep ])

-- From where to where `qarray_loop_strider` goes in a `FIXED_FIELDS` array.
unfoldable pub loop_range : ℕ → Array → ℕ → ℕ → ℕ → ℕ × ℕ
loop_range sheps a shep startat stopat =
    let last_count : ℕ = pred (word ((shep + 1) * a.segment_size * a.segs_per_shep)) in
    (
      if is_mine sheps a shep startat
          then startat
          else word (shep * a.segment_size * a.segs_per_shep),
      if ltb last_count stopat then last_count else stopat,
    )

-- From where to where `qarray_strider` goes in a `FIXED_FIELDS` array.
unfoldable pub strider_range : ℕ → Array → ℕ → ℕ → ℕ → ℕ × ℕ
strider_range sheps a shep startat stopat =
    let count : ℕ =
      if is_mine sheps a shep startat
      then startat
      else word (
          if ltb shep a.extras
          then shep * a.segment_size * (a.segs_per_shep + 1)
          else a.extras * a.segment_size * (a.segs_per_shep + 1)
            + (shep - a.extras) * a.segment_size * a.segs_per_shep) in
    let segs : ℕ = if ltb shep a.extras then a.segs_per_shep + 1 else a.segs_per_shep in
    let last_count : ℕ = word (count + pred (word (a.segment_size * segs))) in
    (count, if ltb last_count stopat then word (last_count + 1) else stopat)

-- A walk from a segment that has been looked for.
unfoldable pub walk : ℕ → ℕ → Array → ℕ → ℕ → ℕ → Option (List (ℕ × ℕ))
walk fuel sheps a shep startat stopat = elim (first_segment fuel sheps a shep startat stopat) [
  | none ↦ none
  | some o ↦ elim o [ none ↦ some [] | some count ↦ stride fuel sheps a shep count stopat ]
]

-- `qarray_strider`, whose ranges are run through one element at a time.
unfoldable pub strider : ℕ → ℕ → Array → ℕ → ℕ → ℕ → Option (List (ℕ × ℕ))
strider fuel sheps a shep startat stopat =
    let range : ℕ × ℕ = strider_range sheps a shep startat stopat in
    elim a.dist_type [
      | all_same ↦ if shep == a.dist_shep then stride fuel sheps a shep startat stopat else some []
      | fixed_fields ↦
          if outside sheps a shep startat stopat
          then some []
          else stride fuel sheps a shep range.0 range.1
      | fixed_hash ↦ walk fuel sheps a shep startat stopat
      | dist ↦ walk fuel sheps a shep startat stopat
    ]

-- The same with the assertion of `qarray_loop_strider` that the first element is before the end.
unfoldable pub loop_walk : ℕ → ℕ → Array → ℕ → ℕ → ℕ → Option (List (ℕ × ℕ))
loop_walk fuel sheps a shep startat stopat = elim (first_segment fuel sheps a shep startat stopat) [
  | none ↦ none
  | some o ↦ elim o [
    | none ↦ some []
    | some count ↦
        let rest = stride fuel sheps a shep count stopat in if ltb count stopat then rest else none
  ]
]

-- A range that is handed over as a whole, after that assertion.
unfoldable pub contiguous : ℕ × ℕ → Option (List (ℕ × ℕ))
contiguous range = if ltb range.0 range.1 then some (range ∷ []) else none

-- `qarray_loop_strider`
unfoldable pub loop_strider : ℕ → ℕ → Array → ℕ → ℕ → ℕ → Option (List (ℕ × ℕ))
loop_strider fuel sheps a shep startat stopat = elim a.dist_type [
  | all_same ↦ if shep == a.dist_shep then contiguous (startat, stopat) else some []
  | fixed_fields ↦
      if outside sheps a shep startat stopat
      then some []
      else contiguous (loop_range sheps a shep startat stopat)
  | fixed_hash ↦ loop_walk fuel sheps a shep startat stopat
  | dist ↦ loop_walk fuel sheps a shep startat stopat
]

-- The shepherds `from`, `from + 1` and so on, `n` of them.
unfoldable pub shepherds : ℕ → ℕ → List ℕ
shepherds from zero = []
shepherds from (suc n) = from ∷ shepherds (from + 1) n

-- The shepherds on which `qarray_iter` and `qarray_iter_loop` spawn a strider.
unfoldable pub spawned : ℕ → Array → ℕ → ℕ → Option (List ℕ)
spawned sheps a startat stopat =
    let whole : Option (List ℕ) =
      if ltb (stopat - startat) a.segment_size
      then elim (shepof sheps a startat) [ none ↦ none | some s ↦ some (s ∷ []) ]
      else some (shepherds 0 sheps) in
    elim a.dist_type [
      | all_same ↦ some (a.dist_shep ∷ [])
      | fixed_fields ↦ elim (shepof sheps a startat) [
        | none ↦ none
        | some from ↦ elim (shepof sheps a (pred stopat)) [
          | none ↦ none
          | some to ↦ some (shepherds from (to + 1 - from))
        ]
      ]
      | fixed_hash ↦ whole
      | dist ↦ whole
    ]

-- What the striders on a list of shepherds do, one after the other.
unfoldable pub gather : (ℕ → Option (List (ℕ × ℕ))) → List ℕ → Option (List (ℕ × ℕ))
gather run [] = some []
gather run (s ∷ l) = elim (run s) [
  | none ↦ none
  | some c ↦ elim (gather run l) [ none ↦ none | some d ↦ some (c ++ d) ]
]

abbrev pub iterated :
    (ℕ → ℕ → Array → ℕ → ℕ → ℕ → Option (List (ℕ × ℕ)))
    → ℕ
    → ℕ
    → Array
    → ℕ
    → ℕ
    → Option (List (ℕ × ℕ))
iterated run fuel sheps a startat stopat =
    if leb startat stopat
    then elim (spawned sheps a startat stopat) [
      | none ↦ none
      | some l ↦ gather (λ s. run fuel sheps a s startat stopat) l
    ]
    else none

-- `qarray_iter`
unfoldable pub iter : ℕ → ℕ → Array → ℕ → ℕ → Option (List (ℕ × ℕ))
iter = iterated strider

-- `qarray_iter_loop`
unfoldable pub iter_loop : ℕ → ℕ → Array → ℕ → ℕ → Option (List (ℕ × ℕ))
iter_loop = iterated loop_strider
