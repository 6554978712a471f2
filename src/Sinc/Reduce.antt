-- ===== src/Sinc/Reduce.antt =====
-- The value that the submits to a sinc of src/sincs/donecount.c come to.
use qthreads.Sinc.{Reduction, Machine, fold_workers, fold_sheps, collated, put_value}
use qthreads.Prelude.{
  ℕ, zero, suc, ◌+◌, ◌≤◌, ◌<◌, ◌≡◌, refl, sym, ◌∙◌, ap, update, update_same, update_ne, eq_or_ne,
  inl, inr, arith,
}

-- The order and the grouping of the submits do not matter.
pub record IsReduction {V : Type 0} (op : V → V → V) : Type 0 where
  pub assoc : (a b c : V) → op (op a b) c ≡ op a (op b c)
  pub comm : (a b : V) → op a b ≡ op b a

module _ {V : Type 0} (op : V → V → V) (laws : IsReduction op) where
  swap_last : (a b c : V) → op (op a b) c ≡ op (op a c) b
  swap_last a b c = laws.assoc a b c ∙ ap (op a) (laws.comm b c) ∙ sym (laws.assoc a c b)

  fold_workers-acc :
      (row : ℕ → V) (left w : ℕ) (acc v : V)
      → fold_workers op row left w (op acc v) ≡ op (fold_workers op row left w acc) v
  unfolding fold_workers
  fold_workers-acc row zero w acc v = refl
  fold_workers-acc row (suc left) w acc v =
      ap (fold_workers op row left (w + 1)) (swap_last acc v (row w))
      ∙ fold_workers-acc row left (w + 1) (op acc (row w)) v

  fold_workers-past :
      (row : ℕ → V) (j : ℕ) (x : V) (left w : ℕ) (acc : V)
      → j < w
      → fold_workers op (update row j x) left w acc ≡ fold_workers op row left w acc
  unfolding fold_workers
  fold_workers-past row j x zero w acc h = refl
  fold_workers-past row j x (suc left) w acc h =
      ap (λ k. fold_workers op (update row j x) left (w + 1) (op acc k))
        (update_ne row j w x (ground arith))
      ∙ fold_workers-past row j x left (w + 1) (op acc (row w)) (omega arith)

  -- A value combined into one slot that the fold comes to.
  fold_workers-put :
      (row : ℕ → V) (j : ℕ) (v : V) (left w : ℕ) (acc : V)
      → w ≤ j
      → j < w + left
      → fold_workers op (update row j (op (row j) v)) left w acc
        ≡ op (fold_workers op row left w acc) v
  unfolding fold_workers
  fold_workers-put row j v zero w acc h k = absurd (omega arith)
  fold_workers-put row j v (suc left) w acc h k = elim (eq_or_ne j w) [
    | inl e ↦
        let here : update row j (op (row j) v) w ≡ op (row w) v =
          ap (update row j (op (row j) v)) (sym e)
          ∙ update_same row j (op (row j) v)
          ∙ ap (λ i. op (row i) v) e in
        ap (λ x. fold_workers op (update row j (op (row j) v)) left (w + 1) (op acc x)) here
        ∙ fold_workers-past row j (op (row j) v) left (w + 1) (op acc (op (row w) v)) (omega arith)
        ∙ ap (fold_workers op row left (w + 1)) (sym (laws.assoc acc (row w) v))
        ∙ fold_workers-acc row left (w + 1) (op acc (row w)) v
    | inr n ↦
        ap (λ x. fold_workers op (update row j (op (row j) v)) left (w + 1) (op acc x))
          (update_ne row j w (op (row j) v) n)
        ∙ fold_workers-put row j v left (w + 1) (op acc (row w)) (omega (arith, n)) (omega arith)
  ]

  module _ (num_wps : ℕ) where
    fold_sheps-acc :
        (values : ℕ → ℕ → V) (left s : ℕ) (acc v : V)
        → fold_sheps op values num_wps left s (op acc v)
          ≡ op (fold_sheps op values num_wps left s acc) v
    unfolding fold_sheps
    fold_sheps-acc values zero s acc v = refl
    fold_sheps-acc values (suc left) s acc v =
        ap (fold_sheps op values num_wps left (s + 1)) (fold_workers-acc (values s) num_wps 0 acc v)
        ∙ fold_sheps-acc values left (s + 1) (fold_workers op (values s) num_wps 0 acc) v

    fold_sheps-past :
        (values : ℕ → ℕ → V) (j : ℕ) (row : ℕ → V) (left s : ℕ) (acc : V)
        → j < s
        → fold_sheps op (update values j row) num_wps left s acc
          ≡ fold_sheps op values num_wps left s acc
    unfolding fold_sheps
    fold_sheps-past values j row zero s acc h = refl
    fold_sheps-past values j row (suc left) s acc h =
        ap
          (λ r.
            fold_sheps op (update values j row) num_wps left (s + 1)
              (fold_workers op r num_wps 0 acc))
          (update_ne values j s row (ground arith))
        ∙ fold_sheps-past values j row left (s + 1) (fold_workers op (values s) num_wps 0 acc)
            (omega arith)

    fold_sheps-put :
        (values : ℕ → ℕ → V) (j w : ℕ) (v : V) (left s : ℕ) (acc : V)
        → w < num_wps
        → s ≤ j
        → j < s + left
        → fold_sheps op
            (update values j (update (values j) w (op (values j w) v)))
            num_wps
            left
            s
            acc
          ≡ op (fold_sheps op values num_wps left s acc) v
    unfolding fold_sheps
    fold_sheps-put values j w v zero s acc f h k = absurd (omega arith)
    fold_sheps-put values j w v (suc left) s acc f h k =
        let row = update (values j) w (op (values j w) v) in
        let all = update values j row in
        elim (eq_or_ne j s) [
          | inl e ↦
              let here : all s ≡ row = ap all (sym e) ∙ update_same values j row in
              let done = fold_workers op (values j) num_wps 0 acc in
              ap (λ r. fold_sheps op all num_wps left (s + 1) (fold_workers op r num_wps 0 acc))
                here
              ∙ ap (fold_sheps op all num_wps left (s + 1))
                  (fold_workers-put (values j) w v num_wps 0 acc (omega arith) (omega arith))
              ∙ fold_sheps-past values j row left (s + 1) (op done v) (omega arith)
              ∙ fold_sheps-acc values left (s + 1) done v
              ∙ ap
                  (λ i.
                    op
                      (fold_sheps op values num_wps left (s + 1)
                        (fold_workers op (values i) num_wps 0 acc))
                      v)
                  e
          | inr n ↦
              ap (λ r. fold_sheps op all num_wps left (s + 1) (fold_workers op r num_wps 0 acc))
                (update_ne values j s row n)
              ∙ fold_sheps-put values j w v left (s + 1) (fold_workers op (values s) num_wps 0 acc)
                  f (omega (arith, n)) (omega arith)
        ]

-- When the order and the grouping of values do not matter: a value that a worker of the machine puts
-- in changes what `qt_sinc_internal_collate` computes by that value, whichever worker it is.
pub collated-put_value :
    {V : Type 0} (k : Machine) (r : Reduction V) (shep worker : ℕ) (v : V)
    → IsReduction r.op
    → shep < k.num_sheps
    → worker < k.num_wps
    → collated k (put_value shep worker v r) ≡ r.op (collated k r) v
unfolding collated put_value
collated-put_value k r shep worker v laws hs hw =
    fold_sheps-put r.op laws k.num_wps r.values shep worker v k.num_sheps 0 r.initial_value hw
      (omega arith) (omega arith)
