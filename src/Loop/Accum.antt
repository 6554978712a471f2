-- ===== src/Loop/Accum.antt =====
-- The result of `qt_loopaccum_balance_inner` of src/qloop.c.
use native.Mathlib.Nat.{div-add-mod, mod-lt}
use qthreads.Loop.Chunks.{stopat-eq, rest_end, bonus, span-eq}
use qthreads.Loop.{
  SyncType, SyncTarget, fill_args, accum_target, accum_args, accum_rest, accum_result,
}
use qthreads.Prelude.{
  ℕ, zero, suc, ◌+◌, ◌-◌, ◌*◌, ◌/◌, ◌^◌, ◌≤◌, ◌<◌, ◌≡◌, sym, subst, ◌∙◌, ap, none, some, ◌==◌,
  arith, false,
}

module _ {ℓ} {A : Type ℓ} (acc : A → A → A) (func : ℕ → ℕ → A)
    (joins : (a b c : ℕ) → a ≤ b → b ≤ c → acc (func a b) (func b c) ≡ func a c) where
  accum_rest-fill_args :
      (left i first iterend each extra maxworkers : ℕ) (target : SyncTarget)
      → first ≤ iterend
      → extra ≤ left
      → iterend + left * each + extra < 2 ^ 64
      → accum_rest acc func
          (func first iterend)
          (fill_args left i iterend each extra maxworkers target)
        ≡ func first (iterend + left * each + extra)
  unfolding accum_rest fill_args
  accum_rest-fill_args zero i first iterend each extra maxworkers target h few narrow =
      let e : iterend ≡ iterend + 0 * each + extra = omega (arith, few) in ap (func first) e
  accum_rest-fill_args (suc left) i first iterend each extra maxworkers target h few narrow =
      let last = rest_end left iterend each extra few in
      let stop = iterend + each + bonus extra in
      let eq = stopat-eq iterend each extra (omega (arith, last, narrow)) in
      subst
        (λ s.
          accum_rest acc func (acc (func first iterend) (func iterend s))
            (fill_args left (i + 1) s each (extra - 1) maxworkers target)
          ≡ func first (iterend + suc left * each + extra))
        (sym eq)
        (ap
            (λ x.
              accum_rest acc func x
                (fill_args left (i + 1) stop each (extra - 1) maxworkers target))
            (joins first iterend stop h (omega arith))
          ∙ accum_rest-fill_args left (i + 1) first stop each (extra - 1) maxworkers target
              (omega (arith, h)) (omega (arith, few)) (omega (arith, last, narrow))
          ∙ ap (func first) last)

  accum_result-fill_args :
      (w l start stop : ℕ) (target : SyncTarget)
      → 0 < w
      → start + l ≡ stop
      → stop < 2 ^ 64
      → accum_result acc func SyncType.syncvar_t
          (fill_args w 0 start (l / w) (l - l / w * w) w target)
        ≡ some (func start stop)
  unfolding accum_result fill_args
  accum_result-fill_args zero l start stop target any whole narrow = absurd (omega (arith, any))
  accum_result-fill_args (suc left) l start stop target any whole narrow =
      let w : ℕ = suc left in
      let each = l / w in
      let extra = l - l / w * w in
      let d = div-add-mod l w in
      let m = mod-lt l any in
      let few : extra ≤ w = omega arith in
      let all : start + w * each + extra ≡ stop = grind arith in
      let last = rest_end left start each extra few in
      let next = start + each + bonus extra in
      let eq = stopat-eq start each extra (omega (arith, last, all, narrow)) in
      subst
        (λ s.
          some (accum_rest acc func (func start s) (fill_args left 1 s each (extra - 1) w target))
          ≡ some (func start stop))
        (sym eq)
        (ap some (
          accum_rest-fill_args left 1 start next each (extra - 1) w target (omega arith)
            (omega (arith, few)) (omega (arith, last, all, narrow))
          ∙ ap (func start) (last ∙ all)))

  -- Where a function gives for two ranges that follow each other what the accumulation makes of the
  -- two results, and the workers wait by syncvars, `qt_loopaccum_balance_inner` leaves in `out` what
  -- the function gives for the whole range, also if there are more workers than iterations. There is a
  -- worker, and the range does not end before it starts.
  pub accum_result-Whole :
      (workers start stop : ℕ)
      → 0 < workers
      → start ≤ stop
      → stop < 2 ^ 64
      → elim (accum_args workers start stop SyncType.syncvar_t) [
        | none ↦ none
        | some args ↦ accum_result acc func SyncType.syncvar_t args
      ]
        ≡ some (func start stop)
  unfolding accum_args accum_target
  accum_result-Whole workers start stop any h narrow =
      let z : (workers == 0) ≡ false = ground (arith, any) in
      rw (accum_args, z, span-eq start stop h narrow)
        (accum_result-fill_args workers (stop - start) start stop SyncTarget.to_syncvars any
          (omega (arith, h)) narrow)
