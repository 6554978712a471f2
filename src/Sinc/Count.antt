-- ===== src/Sinc/Count.antt =====
-- The count of src/sincs/donecount.c and the word `ready`.
use qthreads.Sinc.{
  Reduction, Sinc, Machine, collated, resize, collate, put_value, count_down, submit, wait,
}
use qthreads.Sinc.Reduce.{IsReduction, collated-put_value}
use qthreads.Prelude.{
  ℕ, suc, ◌+◌, ◌-◌, ◌%◌, ◌^◌, ◌<◌, ◌≡◌, refl, ◌∙◌, ap, Bool, true, Option, none, some, List, [],
  ◌∷◌, length, ◌==◌, ltb, if◌then◌else◌, if_both, on_true, on_false, arith,
}

module _ {V : Type 0} where
  abbrev pub counting : ℕ → Bool → Reduction V → Sinc V
  counting n b r = record { counter = n; ready = b; rdata = some r }

  -- Submits one after another: the shepherd, the worker and the value of each.
  unfoldable pub submit_all : Machine → List (ℕ × (ℕ × V)) → Sinc V → Option (Sinc V)
  submit_all k [] s = some s
  submit_all k (x ∷ xs) s = elim (submit k x.0 x.1.0 (some x.1.1) s) [
    | none ↦ none
    | some t ↦ submit_all k xs t
  ]

  abbrev pub combined : (V → V → V) → V → List (ℕ × (ℕ × V)) → V
  combined op acc [] = acc
  combined op acc (x ∷ xs) = combined op (op acc x.1.1) xs

  abbrev pub AllInRange : Machine → List (ℕ × (ℕ × V)) → Type 0
  AllInRange k [] = Unit {0}
  AllInRange k (x ∷ xs) = (x.0 < k.num_sheps) × (x.1.0 < k.num_wps) × AllInRange k xs

  last_submit :
      (k : Machine) (shep worker : ℕ) (v : V) (b : Bool) (r : Reduction V)
      → submit k shep worker (some v) (counting 1 b r)
        ≡ some (collate k (counting 0 b (put_value shep worker v r)))
  unfolding submit count_down
  last_submit k shep worker v b r = refl

  earlier_submit :
      (k : Machine) (shep worker : ℕ) (v : V) (n : ℕ) (b : Bool) (r : Reduction V)
      → suc (suc n) < 2 ^ 64
      → submit k shep worker (some v) (counting (suc (suc n)) b r)
        ≡ some (counting (suc n) b (put_value shep worker v r))
  unfolding submit count_down
  earlier_submit k shep worker v n b r h =
      let r' = put_value shep worker v r in
      let c : (suc (suc n) + (2 ^ 64 - 1)) % 2 ^ 64 ≡ suc n = omega arith in
      let Goal : Option (Sinc V) → Type 0 = λ x. x ≡ some (counting (suc n) b r') in
      on_true Goal {b = ltb 0 (suc (suc n))} none (ground arith) (
        ap some (
          on_false (λ (x : Sinc V). x ≡ counting (suc n) b r') {b = suc (suc n) == 1} _
            (ground arith) (ap (λ m. counting m b r') c)))

  -- When all have come.
  abbrev pub Completed : Machine → List (ℕ × (ℕ × V)) → Reduction V → Option (Sinc V) → Type 0
  Completed k xs r o =
      (r' : Reduction V) × (o ≡ some (counting 0 true r'))
      × (r'.result ≡ combined r.op (collated k r) xs)

  submit_all-from :
      (k : Machine) (x : ℕ × (ℕ × V)) (xs : List (ℕ × (ℕ × V))) (b : Bool) (r : Reduction V)
      → IsReduction r.op
      → AllInRange k (x ∷ xs)
      → suc (length xs) < 2 ^ 64
      → Completed k (x ∷ xs) r (submit_all k (x ∷ xs) (counting (suc (length xs)) b r))
  unfolding submit_all collate put_value
  submit_all-from k x [] b r laws range few =
      let r' = put_value x.0 x.1.0 x.1.1 r in
      (
        record r' { result = collated k r' },
        ap (λ o. elim o [ none ↦ none | some t ↦ some t ]) (last_submit k x.0 x.1.0 x.1.1 b r),
        collated-put_value k r x.0 x.1.0 x.1.1 laws range.0 range.1,
      )
  submit_all-from k x (y ∷ ys) b r laws range few =
      let r' = put_value x.0 x.1.0 x.1.1 r in
      let rest = submit_all-from k y ys b r' laws range.2 (omega arith) in
      (
        rest.0,
        ap (λ o. elim o [ none ↦ none | some t ↦ submit_all k (y ∷ ys) t ])
              (earlier_submit k x.0 x.1.0 x.1.1 (length ys) b r few)
            ∙ rest.1,
        rest.2
            ∙ ap (λ a. combined r.op a (y ∷ ys))
                (collated-put_value k r x.0 x.1.0 x.1.1 laws range.0 range.1),
      )

-- For a sinc with a reduction whose operation is associative and commutative, that expects a number
-- of submits, at least one and less than 2 ^ 64: after as many submits of a value, by workers of the
-- machine, no assertion has failed, the counter is zero, the word is full, and the result is what
-- the slots held before combined with the submitted values, whichever workers submitted them.
pub submit_all-Completed :
    {V : Type 0} (k : Machine) (x : ℕ × (ℕ × V)) (xs : List (ℕ × (ℕ × V))) (b : Bool)
    (r : Reduction V)
    → IsReduction r.op
    → AllInRange k (x ∷ xs)
    → suc (length xs) < 2 ^ 64
    → Completed k (x ∷ xs) r (submit_all k (x ∷ xs) (counting (suc (length xs)) b r))
submit_all-Completed k x xs b r laws range few = submit_all-from k x xs b r laws range few

-- `qt_sinc_resize` does not empty the word: when it adds submits to a sinc that is done, a number
-- above zero and below 2 ^ 64, the sinc expects them, and yet `qt_sinc_wait` returns at once with
-- the old result.
pub wait-resize :
    {V : Type 0} (diff : ℕ) (r : Reduction V)
    → 0 < diff
    → diff < 2 ^ 64
    → (t : Sinc V) × (resize diff (counting 0 true r) ≡ some t)
      × (t.counter ≡ diff)
      × (wait t ≡ some (some r.result))
unfolding resize wait
wait-resize diff r pos few =
    let c : (0 + diff) % 2 ^ 64 ≡ diff = omega arith in
    (
      counting diff true r,
      ap (λ m. some (counting m (if m == 0 then true else true) r)) c
          ∙ ap (λ e. some (counting diff e r))
              (if_both (λ e. e ≡ true) (diff == 0) (λ t. refl) (λ t. refl)),
      refl,
      refl,
    )
