-- ===== src/Loop/Chunks.antt =====
-- The pieces that `qt_loop_balance_inner` of src/qloop.c hands out.
use native.Mathlib.Nat.{div-add-mod, mod-lt}
use qthreads.Loop.{
  SyncType, SyncTarget, WrapperArgs, word, sync_target, fill_args, span, max_workers, balance,
}
use qthreads.Prelude.{
  ℕ, zero, suc, ◌+◌, ◌-◌, ◌*◌, ◌/◌, ◌^◌, ◌≤◌, ◌<◌, ◌≡◌, refl, sym, subst, ◌∙◌, ap, ap₂, on_some,
  Option, none, some, List, [], ◌∷◌, length, total, ◌==◌, ltb, leb, if◌then◌else◌, if_both, on_true,
  on_false, inl, inr, ◌⊎◌, arith,
}

-- How often iteration `x` is in a piece: once or never.
abbrev pub covers : ℕ → WrapperArgs → ℕ
covers x a = if leb a.startat x then (if ltb x a.stopat then 1 else 0) else 0

-- A piece has the size of all, or one more.
abbrev pub AllEven : ℕ → List WrapperArgs → Type 0
AllEven each [] = Unit {0}
AllEven each (a ∷ rest) =
    ((a.stopat ≡ a.startat + each) ⊎ (a.stopat ≡ a.startat + each + 1)) × AllEven each rest

-- One piece from the end of the last one on, when nothing wraps around.
pub stopat-eq :
    (iterend each extra : ℕ)
    → iterend + each + (if ltb 0 extra then 1 else 0) < 2 ^ 64
    → (if ltb 0 extra then word (word (iterend + each) + 1) else word (iterend + each))
      ≡ iterend + each + (if ltb 0 extra then 1 else 0)
unfolding word
stopat-eq iterend each extra narrow = grind arith

abbrev pub bonus : ℕ → ℕ
bonus extra = if ltb 0 extra then 1 else 0

abbrev pub between : ℕ → ℕ → ℕ → ℕ
between s e x = if leb s x then (if ltb x e then 1 else 0) else 0

between-add : (s m e x : ℕ) → s ≤ m → m ≤ e → between s m x + between m e x ≡ between s e x
between-add s m e x h k = ground arith

-- What is left after one piece.
pub rest_end :
    (left iterend each extra : ℕ)
    → extra ≤ suc left
    → iterend + each + bonus extra + left * each + (extra - 1) ≡ iterend + suc left * each + extra
rest_end left iterend each extra few = grind arith

-- The pieces cover what lies from their start to their end once, and nothing else.
fill_args-covers :
    (left i iterend each extra maxworkers : ℕ) (target : SyncTarget) (x : ℕ)
    → extra ≤ left
    → iterend + left * each + extra < 2 ^ 64
    → total (covers x) (fill_args left i iterend each extra maxworkers target)
      ≡ between iterend (iterend + left * each + extra) x
unfolding fill_args
fill_args-covers zero i iterend each extra maxworkers target x few narrow = ground arith
fill_args-covers (suc left) i iterend each extra maxworkers target x few narrow =
    let last = rest_end left iterend each extra few in
    let stop = iterend + each + bonus extra in
    let eq = stopat-eq iterend each extra (omega (arith, last, narrow)) in
    subst
      (λ s.
        between iterend s x
          + total (covers x) (fill_args left (i + 1) s each (extra - 1) maxworkers target)
        ≡ between iterend (iterend + suc left * each + extra) x)
      (sym eq)
      (ap (λ k. between iterend stop x + k)
          (fill_args-covers left (i + 1) stop each (extra - 1) maxworkers target x (omega arith)
            (omega (arith, last, narrow)))
        ∙ between-add iterend stop (stop + left * each + (extra - 1)) x (ground arith) (omega arith)
        ∙ ap (λ e. between iterend e x) last)

fill_args-AllEven :
    (left i iterend each extra maxworkers : ℕ) (target : SyncTarget)
    → extra ≤ left
    → iterend + left * each + extra < 2 ^ 64
    → AllEven each (fill_args left i iterend each extra maxworkers target)
unfolding fill_args
fill_args-AllEven zero i iterend each extra maxworkers target few narrow = tt
fill_args-AllEven (suc left) i iterend each extra maxworkers target few narrow =
    let last = rest_end left iterend each extra few in
    let stop = iterend + each + bonus extra in
    let eq = stopat-eq iterend each extra (omega (arith, last, narrow)) in
    subst
      (λ s.
        ((s ≡ iterend + each) ⊎ (s ≡ iterend + each + 1))
        × AllEven each (fill_args left (i + 1) s each (extra - 1) maxworkers target))
      (sym eq)
      (
        if_both
            (λ b. (iterend + each + b ≡ iterend + each) ⊎ (iterend + each + b ≡ iterend + each + 1))
            (ltb 0 extra) (λ t. inr refl) (λ t. inl (omega arith)),
        fill_args-AllEven left (i + 1) stop each (extra - 1) maxworkers target (omega arith)
            (omega (arith, last, narrow)),
      )

length-fill_args :
    (left i iterend each extra maxworkers : ℕ) (target : SyncTarget)
    → length (fill_args left i iterend each extra maxworkers target) ≡ left
unfolding fill_args
length-fill_args zero i iterend each extra maxworkers target = refl
length-fill_args (suc left) i iterend each extra maxworkers target =
    ap suc (length-fill_args left (i + 1) _ each (extra - 1) maxworkers target)

pub span-eq : (start stop : ℕ) → start ≤ stop → stop < 2 ^ 64 → span start stop ≡ stop - start
unfolding span word
span-eq start stop h narrow = grind arith

max_workers-eq :
    (workers start stop : ℕ)
    → workers < 2 ^ 16
    → start ≤ stop
    → stop < 2 ^ 64
    → max_workers workers start stop
      ≡ (if ltb workers (stop - start) then workers else stop - start)
unfolding max_workers
max_workers-eq workers start stop few h narrow = rw (span-eq start stop h narrow) (grind arith)

-- What the division hands out.
abbrev pub Balanced : ℕ → ℕ → ℕ → SyncType → Option (List WrapperArgs) → Type 0
Balanced workers start stop sync_type r =
    (pieces : List WrapperArgs) × (r ≡ some pieces)
    × (length pieces ≡ (if ltb workers (stop - start) then workers else stop - start))
    × ((x : ℕ) → total (covers x) pieces ≡ between start stop x)
    × AllEven ((stop - start) / length pieces) pieces

fill_args-Pieces :
    (w l start stop : ℕ) (target : SyncTarget)
    → 0 < w
    → start + l ≡ stop
    → stop < 2 ^ 64
    → let pieces = fill_args w 0 start (l / w) (l - l / w * w) w target in
      (length pieces ≡ w)
      × ((x : ℕ) → total (covers x) pieces ≡ between start stop x)
      × AllEven (l / w) pieces
fill_args-Pieces w l start stop target any whole narrow =
    let each = l / w in
    let extra = l - l / w * w in
    let d = div-add-mod l w in
    let m = mod-lt l any in
    let few : extra ≤ w = omega arith in
    let all : start + w * each + extra ≡ stop = grind arith in
    (
      length-fill_args w 0 start each extra w target,
      (λ x.
          fill_args-covers w 0 start each extra w target x few (omega (arith, all, narrow))
          ∙ ap (λ e. between start e x) all),
      fill_args-AllEven w 0 start each extra w target few (omega (arith, all, narrow)),
    )

balance-eq :
    (workers start stop w l : ℕ) (sync_type : SyncType) (target : SyncTarget)
    → 0 < w
    → max_workers workers start stop ≡ w
    → span start stop ≡ l
    → sync_target sync_type ≡ some target
    → balance workers start stop sync_type
      ≡ some (fill_args w 0 start (l / w) (l - l / w * w) w target)
unfolding balance
balance-eq workers start stop w l sync_type target any mw sp t =
    let made = some (fill_args w 0 start (l / w) (l - l / w * w) w target) in
    on_false (λ (r : Option (List WrapperArgs)). r ≡ made) {b = max_workers workers start stop == 0}
      none (ground arith)
      (on_some (λ (r : Option (List WrapperArgs)). r ≡ made) none _ t
        (ap₂ (λ m s. some (fill_args m 0 start (s / m) (s - s / m * m) m target)) mw sp))

-- With at least one worker and less than 2 ^ 16 of them, at least one iteration, and a way of
-- waiting other than `NO_SYNC`: `qt_loop_balance_inner` makes as many pieces as there are workers,
-- or iterations if these are fewer; every iteration from the start up to the stop is in exactly one
-- piece and no other number is in any; and the sizes of the pieces are the quotient, or one more.
pub balance-Balanced :
    (workers start stop : ℕ) (sync_type : SyncType) (target : SyncTarget)
    → 0 < workers
    → workers < 2 ^ 16
    → start < stop
    → stop < 2 ^ 64
    → sync_target sync_type ≡ some target
    → Balanced workers start stop sync_type (balance workers start stop sync_type)
unfolding balance
balance-Balanced workers start stop sync_type target any few h narrow t =
    let l = stop - start in
    let w = if ltb workers l then workers else l in
    let pos : 0 < w = ground arith in
    let got = fill_args-Pieces w l start stop target pos (omega arith) narrow in
    (
      fill_args w 0 start (l / w) (l - l / w * w) w target,
      balance-eq workers start stop w l sync_type target pos
          (max_workers-eq workers start stop few (omega arith) narrow)
          (span-eq start stop (omega arith) narrow) t,
      got.0,
      got.1,
      subst (λ n. AllEven (l / n) (fill_args w 0 start (l / w) (l - l / w * w) w target))
          (sym got.0) got.2,
    )

-- For a range of no iterations, whatever the workers and the way of waiting,
-- `qt_loop_balance_inner` has no result: it divides by the number of the pieces, which is zero.
pub balance-nothing :
    (workers start : ℕ) (sync_type : SyncType)
    → start < 2 ^ 64
    → balance workers start start sync_type ≡ none
unfolding balance max_workers
balance-nothing workers start sync_type narrow =
    on_true (λ (r : Option (List WrapperArgs)). r ≡ none) {b = max_workers workers start start == 0}
      _ (rw (span-eq start start (omega arith) narrow) (ground arith)) refl
