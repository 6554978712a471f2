-- ===== src/Prelude/Lists.antt =====
-- Lists measured and indexed by native numbers, under the library's names.
use Prim.Native.Nat.{ℕ, zero, suc, ◌+◌}
use mathlib.Core.Path.{◌≡◌, refl, ap, sym, subst}
use mathlib.Core.List.{List, [], ◌∷◌, ◌++◌}
use qthreads.Prelude.Tests.{◌==◌, if◌then◌else◌}
use native.Mathlib.Omega.{arith}

module _ {ℓ} {A : Type ℓ} where
  abbrev pub length : List A → ℕ
  length [] = 0
  length (x ∷ xs) = suc (length xs)

  abbrev pub replicate : ℕ → A → List A
  replicate zero a = []
  replicate (suc n) a = a ∷ replicate n a

  pub length-append : (xs ys : List A) → length (xs ++ ys) ≡ length xs + length ys
  length-append [] ys = omega arith
  length-append (x ∷ xs) ys = omega (arith, length-append xs ys)

  pub length-replicate : (n : ℕ) (a : A) → length (replicate n a) ≡ n
  length-replicate zero a = refl
  length-replicate (suc n) a = ap suc (length-replicate n a)

-- The sum of a weight over a list.
abbrev pub total {ℓ} : {A : Type ℓ} → (A → ℕ) → List A → ℕ
total w [] = 0
total w (x ∷ xs) = w x + total w xs

pub total-append {ℓ} :
    {A : Type ℓ} (w : A → ℕ) (xs ys : List A) → total w (xs ++ ys) ≡ total w xs + total w ys
total-append w [] ys = omega arith
total-append w (x ∷ xs) ys = omega (arith, total-append w xs ys)

abbrev pub same : ℕ → ℕ → ℕ
same x y = if x == y then 1 else 0

-- How often a number stands in a list.
abbrev pub occurs : ℕ → List ℕ → ℕ
occurs x l = total (same x) l

-- A property of a branch on a list, from its two sides.
pub list_both {ℓ κ μ} :
    {A : Type ℓ} {B : Type κ} (P : B → List A → Type μ) (l : List A) {x : B} {f : A → List A → B}
    → (l ≡ [] → P x [])
    → ((a : A) (r : List A) → l ≡ a ∷ r → P (f a r) (a ∷ r))
    → P (elim l [ [] ↦ x | a ∷ r ↦ f a r ]) l
list_both P [] h k = h refl
list_both P (a ∷ r) h k = k a r refl

pub list_cons {ℓ κ μ} :
    {A : Type ℓ} {B : Type κ} (P : B → Type μ) {l : List A} (x : B) (f : A → List A → B) {a : A}
    {r : List A}
    → l ≡ a ∷ r
    → P (f a r)
    → P (elim l [ [] ↦ x | a ∷ r ↦ f a r ])
list_cons P x f e p = subst (λ l. P (elim l [ [] ↦ x | a ∷ r ↦ f a r ])) (sym e) p
