-- ===== src/Sinc.antt =====
-- src/sincs/donecount.c: a count of expected submits, with a word `ready` that is full when all have
-- come, and a reduction of the submitted values. Each call is one step. An assertion that fails is
-- none.
pub mod Reduce
pub mod Count
use qthreads.Prelude.{
  ℕ, zero, suc, ◌+◌, ◌-◌, ◌*◌, ◌%◌, ◌^◌, ◌≡◌, Bool, true, false, ◌&&◌, Option, none, some, ◌==◌,
  ltb, if◌then◌else◌, update,
}

-- `qt_sinc_reduction_t`: the values of the shepherds and their workers. The sizes and offsets of
-- the code, a multiple of a cache line for each shepherd, are the two arguments of `values`.
pub record Reduction (V : Type 0) : Type 0 where
  pub values : ℕ → ℕ → V
  pub op : V → V → V
  pub result : V
  pub initial_value : V

-- `struct qt_sinc_s`; `ready` is whether the word is full.
pub record Sinc (V : Type 0) : Type 0 where
  pub counter : ℕ
  pub ready : Bool
  pub rdata : Option (Reduction V)

-- `num_sheps` and `num_wps`
pub record Machine : Type 0 where
  pub num_sheps : ℕ
  pub num_wps : ℕ

module _ {V : Type 0} where
  -- The first count says how many workers, or shepherds, are left.
  unfoldable pub fold_workers : (V → V → V) → (ℕ → V) → ℕ → ℕ → V → V
  fold_workers op row zero w acc = acc
  fold_workers op row (suc left) w acc = fold_workers op row left (w + 1) (op acc (row w))

  unfoldable pub fold_sheps : (V → V → V) → (ℕ → ℕ → V) → ℕ → ℕ → ℕ → V → V
  fold_sheps op values num_wps zero s acc = acc
  fold_sheps op values num_wps (suc left) s acc =
      fold_sheps op values num_wps left (s + 1) (fold_workers op (values s) num_wps 0 acc)

  -- What `qt_sinc_internal_collate` computes.
  unfoldable pub collated : Machine → Reduction V → V
  collated k r = fold_sheps r.op r.values k.num_wps k.num_sheps 0 r.initial_value

  unfoldable pub sinc_init : Option (V × (V → V → V)) → ℕ → Sinc V
  sinc_init reduction expect = record {
    counter = expect;
    ready = expect == 0;
    rdata = elim reduction [
      | none ↦ none
      | some (initial, op) ↦
          some
            (record { values = λ s w. initial; op = op; result = initial; initial_value = initial })
    ];
  }

  unfoldable pub reset : ℕ → Sinc V → Sinc V
  reset will_spawn s = record {
    counter = will_spawn;
    ready = if will_spawn == 0 then s.ready else false;
    rdata = elim s.rdata [
      | none ↦ none
      | some r ↦ some (record r { values = λ i w. r.initial_value })
    ];
  }

  unfoldable pub resize : ℕ → Sinc V → Option (Sinc V)
  resize diff s =
      let count = (s.counter + diff) % 2 ^ 64 in
      if (s.counter == 0) && s.ready
      then some (record s { counter = count; ready = if count == 0 then true else s.ready })
      else none

  unfoldable pub expect : ℕ → Sinc V → Option (Sinc V)
  expect count s =
      let new = (s.counter + count) % 2 ^ 64 in
      let ready = if count == 0 then s.ready else if s.counter == 0 then false else s.ready in
      if ltb 0 new then some (record s { counter = new; ready = ready }) else none

  unfoldable pub collate : Machine → Sinc V → Sinc V
  collate k s = record s {
    ready = true;
    rdata = elim s.rdata [ none ↦ none | some r ↦ some (record r { result = collated k r }) ];
  }

  -- The value's part of `qt_sinc_submit`, by a worker of a shepherd.
  unfoldable pub put_value : ℕ → ℕ → V → Reduction V → Reduction V
  put_value shep worker v r = record r {
    values = update r.values shep (update (r.values shep) worker (r.op (r.values shep worker) v));
  }

  -- The counter's part.
  unfoldable pub count_down : Machine → Sinc V → Option (Sinc V)
  count_down k s =
      let t = record s { counter = (s.counter + (2 ^ 64 - 1)) % 2 ^ 64 } in
      if ltb 0 s.counter then some (if s.counter == 1 then collate k t else t) else none

  unfoldable pub submit : Machine → ℕ → ℕ → Option V → Sinc V → Option (Sinc V)
  submit k shep worker none s = count_down k s
  submit k shep worker (some v) s = elim s.rdata [
    | none ↦ none
    | some r ↦ count_down k (record s { rdata = some (put_value shep worker v r) })
  ]

  -- `qt_sinc_wait`: none while the word is empty, and then what is copied to the target, if
  -- anything.
  unfoldable pub wait : Sinc V → Option (Option V)
  wait s = if s.ready then some (elim s.rdata [ none ↦ none | some r ↦ some r.result ]) else none
