-- ===== src/SwsrQueue/Contents.antt =====
-- The queue that a ring stands for: the elements from the head up to the tail.
use qthreads.SwsrQueue.{Ring, next}
use native.Mathlib.Nat.{mod-eq_of_lt}
use qthreads.Prelude.{
  ℕ, zero, suc, ◌+◌, ◌-◌, ◌%◌, ◌^◌, ◌<◌, ◌≡◌, refl, ◌∙◌, ap, ap₂, List, [], ◌∷◌, ◌++◌, length, ◌==◌,
  leb, if◌then◌else◌, update, update_ne, if_both, arith,
}

pub record IsValid (q : Ring) : Type 0 where
  pub narrow : q.size < 2 ^ 32
  pub head_fits : q.head < q.size
  pub tail_fits : q.tail < q.size
  pub copies : q.size2 ≡ q.size

-- The next index, without a remainder.
abbrev pub after : ℕ → ℕ → ℕ
after i size = if i + 1 == size then 0 else i + 1

pub next-after : (i size : ℕ) → i < size → size < 2 ^ 32 → next i size ≡ after i size
unfolding next
next-after i size h narrow =
    let fits : (i + 1) % 2 ^ 32 ≡ i + 1 = omega arith in
    ap (λ k. k % size) fits
    ∙ if_both (λ k. (i + 1) % size ≡ k) (i + 1 == size)
        (λ t. let e : i + 1 ≡ size = ground arith in ap (λ k. k % size) e ∙ grind arith)
        (λ t. mod-eq_of_lt (ground arith))

-- How many slots lie from index `i` up to index `j`.
abbrev pub distance : ℕ → ℕ → ℕ → ℕ
distance i j size = if leb i j then j - i else j + size - i

abbrev pub walk : ℕ → ℕ → ℕ → (ℕ → ℕ) → List ℕ
walk zero i size e = []
walk (suc n) i size e = e i ∷ walk n (after i size) size e

unfoldable pub contents : Ring → List ℕ
contents q = walk (distance q.head q.tail q.size) q.head q.size q.elements

pub length-walk : (n i size : ℕ) (e : ℕ → ℕ) → length (walk n i size e) ≡ n
length-walk zero i size e = refl
length-walk (suc n) i size e = ap suc (length-walk n (after i size) size e)

-- A write at the end of a walk that is not all the way round is not seen by it.
pub walk-update :
    (n i j size x : ℕ) (e : ℕ → ℕ)
    → i < size
    → j < size
    → n ≡ distance i j size
    → walk n i size (update e j x) ≡ walk n i size e
walk-update zero i j size x e hi hj d = refl
walk-update (suc n) i j size x e hi hj d =
    ap₂ ◌∷◌ (update_ne e j i x (ground arith))
      (walk-update n (after i size) j size x e (ground arith) hj (ground arith))

-- A walk that is one longer ends with the element at its end.
pub walk-snoc :
    (n i j size : ℕ) (e : ℕ → ℕ)
    → i < size
    → j < size
    → n ≡ distance i j size
    → walk (suc n) i size e ≡ walk n i size e ++ e j ∷ []
walk-snoc zero i j size e hi hj d = let same : i ≡ j = ground arith in ap (λ k. e k ∷ []) same
walk-snoc (suc n) i j size e hi hj d =
    ap (λ r. e i ∷ r) (walk-snoc n (after i size) j size e (ground arith) hj (ground arith))
