-- ===== src/Qarray/Seek.antt =====
-- How a strider of src/ds/qarray.c looks for the segments of its shepherd.
use native.Mathlib.Nat.{mod-eq_of_lt, mul-div_cancel}
use qthreads.Loop.{word}
use qthreads.Qarray.{
  Array, DistType, all_same, fixed_fields, fixed_hash, dist, shepof, shepof_segidx,
}
use qthreads.Qarray.Loops.{is_mine, seek}
use qthreads.Prelude.{
  ℕ, zero, suc, ◌+◌, ◌*◌, ◌/◌, ◌%◌, ◌^◌, ◌≤◌, ◌<◌, ◌≡◌, refl, sym, ◌∙◌, ap, subst, Bool, true,
  false, Option, none, some, ◌==◌, ltb, leb, ◌⊎◌, inl, inr, arith, eq_or_ne, Bool-cases, on_true,
}

-- The arrays whose part of a shepherd is not contiguous.
abbrev pub IsSpread : Array → Type 0
IsSpread a = (a.dist_type ≡ fixed_hash) ⊎ (a.dist_type ≡ dist)

-- A range of elements of an array with room in a `size_t` for one hop more.
pub record IsRange (sheps : ℕ) (a : Array) (max_count : ℕ) : Type 0 where
  pub spread : IsSpread a
  pub any : 0 < a.segment_size
  pub some_shep : 0 < sheps
  pub tagged : (q : ℕ) → a.tags q < sheps
  pub inside : max_count ≤ a.count
  pub narrow : a.count + a.segment_size * sheps + a.segment_size < 2 ^ 64

-- Whether a segment belongs to a shepherd.
abbrev pub mine : ℕ → Array → ℕ → ℕ → Bool
mine sheps a shep q = shepof_segidx sheps a q == shep

-- From one segment on, and before another, none belongs to the shepherd.
abbrev pub Blank : ℕ → Array → ℕ → ℕ → ℕ → Type 0
Blank sheps a shep k l = (q : ℕ) → k ≤ q → q < l → mine sheps a shep q ≡ false

-- What looking from a segment on gives: the first segment that belongs to the shepherd, or, where
-- the range ends before, nothing.
pub record Sought (sheps : ℕ) (a : Array) (shep max_count k : ℕ) (o : Option (Option ℕ))
    : Type 0 where
  pub seg : ℕ
  pub above : k ≤ seg
  pub blank : Blank sheps a shep k seg
  pub outcome :
      ((seg * a.segment_size < max_count)
        × (mine sheps a shep seg ≡ true)
        × (o ≡ some (some (seg * a.segment_size))))
      ⊎ ((max_count ≤ seg * a.segment_size) × (o ≡ some none))

pub spread_choice {ℓ} :
    {A : Type ℓ} {d : DistType}
    → (d ≡ fixed_hash) ⊎ (d ≡ dist)
    → (w x y : A) → elim d [ all_same ↦ w | fixed_fields ↦ x | fixed_hash ↦ y | dist ↦ y ] ≡ y
spread_choice (inl e) w x y = rw e refl
spread_choice (inr e) w x y = rw e refl

pub spread-shepof :
    (sheps : ℕ) (a : Array) (i : ℕ)
    → IsSpread a
    → i < a.count
    → shepof sheps a i ≡ some (shepof_segidx sheps a (i / a.segment_size))
unfolding shepof
spread-shepof sheps a i s h =
    on_true (λ (x : Option ℕ). x ≡ some (shepof_segidx sheps a (i / a.segment_size)))
      {b = ltb i a.count} none (ground arith)
      (ap some (spread_choice s _ _ (shepof_segidx sheps a (i / a.segment_size))))

pub mine-element :
    (sheps : ℕ) (a : Array) (shep max_count i : ℕ)
    → IsRange sheps a max_count
    → i < max_count
    → is_mine sheps a shep i ≡ mine sheps a shep (i / a.segment_size)
unfolding is_mine
mine-element sheps a shep max_count i r h =
    let e = spread-shepof sheps a i r.spread (omega (arith, r.inside)) in rw (is_mine, e) refl

pub mine-head :
    (sheps : ℕ) (a : Array) (shep max_count k : ℕ)
    → IsRange sheps a max_count
    → k * a.segment_size < max_count
    → is_mine sheps a shep (k * a.segment_size) ≡ mine sheps a shep k
mine-head sheps a shep max_count k r h =
    mine-element sheps a shep max_count (k * a.segment_size) r h
    ∙ ap (mine sheps a shep) (mul-div_cancel k r.any)

pub hop-next :
    (sheps : ℕ) (a : Array) (max_count k : ℕ)
    → IsRange sheps a max_count
    → k * a.segment_size < max_count
    → word (k * a.segment_size + word (a.segment_size * sheps)) ≡ (k + sheps) * a.segment_size
unfolding word
hop-next sheps a max_count k r h =
    ap (λ n. (k * a.segment_size + n) % 2 ^ 64) (mod-eq_of_lt (omega (arith, r.narrow)))
    ∙ mod-eq_of_lt (omega (arith, r.narrow, r.inside))
    ∙ grind arith

pub step-next :
    (sheps : ℕ) (a : Array) (max_count k : ℕ)
    → IsRange sheps a max_count
    → k * a.segment_size < max_count
    → word (k * a.segment_size + a.segment_size) ≡ (k + 1) * a.segment_size
unfolding word
step-next sheps a max_count k r h = mod-eq_of_lt (omega (arith, r.narrow, r.inside)) ∙ grind arith

pub later-Blank :
    (sheps : ℕ) (a : Array) (shep k l : ℕ)
    → mine sheps a shep k ≡ false
    → Blank sheps a shep (k + 1) l
    → Blank sheps a shep k l
later-Blank sheps a shep k l f b q low high = elim (eq_or_ne q k) [
  | inl e ↦ subst (λ x. mine sheps a shep x ≡ false) (sym e) f
  | inr n ↦ b q (omega (arith, n)) high
]

pub seek-Sought :
    (fuel sheps : ℕ) (a : Array) (shep max_count k : ℕ)
    → IsRange sheps a max_count
    → k * a.segment_size < max_count
    → max_count < k * a.segment_size + fuel
    → Sought sheps a shep max_count k (seek fuel sheps a shep (k * a.segment_size) max_count)
unfolding seek
seek-Sought zero sheps a shep max_count k r h enough = absurd (omega arith)
seek-Sought (suc fuel) sheps a shep max_count k r h enough =
    let next = step-next sheps a max_count k r h in
    let head = mine-head sheps a shep max_count k r h in
    elim (Bool-cases (mine sheps a shep k)) [
      | inl t ↦ record {
        seg = k;
        above = omega arith;
        blank = λ q low high. absurd (omega arith);
        outcome = inl (h, t, rw (head, t) refl);
      }
      | inr f ↦ elim (Bool-cases (leb max_count ((k + 1) * a.segment_size))) [
        | inl t ↦ record {
          seg = k + 1;
          above = omega arith;
          blank = later-Blank sheps a shep k (k + 1) f (λ q low high. absurd (omega arith));
          outcome = inr (ground (arith, t), rw (head, f, next, t) refl);
        }
        | inr g ↦
            let s =
              seek-Sought fuel sheps a shep max_count (k + 1) r (ground (arith, g))
                (grind (arith, r.any)) in
            record {
              seg = s.seg;
              above = omega (arith, s.above);
              blank = later-Blank sheps a shep k s.seg f s.blank;
              outcome = rw (head, f, next, g) s.outcome;
            }
      ]
    ]
