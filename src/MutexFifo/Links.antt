-- ===== src/MutexFifo/Links.antt =====
-- Which threads the chain of nodes of src/threadqueues/mutexfifo_threadqueues.c holds.
use qthreads.MutexFifo.{ThreadqueueNode, Threadqueue, unlink}
use qthreads.Prelude.{
  ℕ, ◌≡◌, ◌≢◌, refl, sym, ◌∙◌, ap, none, some, List, [], ◌∷◌, ◌++◌, update, update_same, update_ne,
}

-- An address that is none of those of a chain.
abbrev pub Apart : ℕ → List (ℕ × ℕ) → Type 0
Apart x [] = Unit {0}
Apart x (n ∷ l) = (x ≢ n.0) × Apart x l

-- The nodes that follow a node, with their threads, to the last, `z`. No address comes twice.
abbrev pub Links : (ℕ → ThreadqueueNode) → ℕ → List (ℕ × ℕ) → ℕ → Type 0
Links nodes a [] z = ((nodes a).next ≡ none) × (z ≡ a)
Links nodes a (n ∷ l) z =
    ((nodes a).next ≡ some n.0)
    × ((nodes n.0).value ≡ n.1)
    × Apart a (n ∷ l)
    × (n.1 ≢ 0)
    × Links nodes n.0 l z

abbrev pub threads : List (ℕ × ℕ) → List ℕ
threads [] = []
threads (n ∷ l) = n.1 ∷ threads l

-- A write elsewhere changes nothing.
Links-elsewhere :
    (nodes : ℕ → ThreadqueueNode) (a : ℕ) (l : List (ℕ × ℕ)) (z x : ℕ) (n : ThreadqueueNode)
    → x ≢ a
    → Apart x l
    → Links nodes a l z
    → Links (update nodes x n) a l z
Links-elsewhere nodes a [] z x n h k (e, f) =
    (ap (λ (m : ThreadqueueNode). m.next) (update_ne nodes x a n h) ∙ e, f)
Links-elsewhere nodes a (m ∷ l) z x n h (k, ks) (e, v, d, pos, more) = (
  ap (λ (m : ThreadqueueNode). m.next) (update_ne nodes x a n h) ∙ e,
  ap (λ (m : ThreadqueueNode). m.value) (update_ne nodes x m.0 n k) ∙ v,
  d,
  pos,
  Links-elsewhere nodes m.0 l z x n k ks more,
)

-- The last node of a chain is none of those that are apart from it.
pub last-Apart :
    (nodes : ℕ → ThreadqueueNode) (x a : ℕ) (l : List (ℕ × ℕ)) (z : ℕ)
    → x ≢ a
    → Apart x l
    → Links nodes a l z
    → x ≢ z
last-Apart nodes x a [] z h k (e, f) c = h (c ∙ f)
last-Apart nodes x a (n ∷ l) z h (k, ks) (e, v, d, pos, more) c =
    last-Apart nodes x n.0 l z k ks more c

Apart-snoc : (x : ℕ) (l : List (ℕ × ℕ)) (n : ℕ × ℕ) → Apart x l → x ≢ n.0 → Apart x (l ++ n ∷ [])
Apart-snoc x [] n h k = (k, tt)
Apart-snoc x (m ∷ l) n (h, hs) k = (h, Apart-snoc x l n hs k)

-- A node behind the last one.
pub Links-snoc :
    (nodes after : ℕ → ThreadqueueNode) (a : ℕ) (l : List (ℕ × ℕ)) (z x t : ℕ)
    → Links nodes a l z
    → x ≢ a
    → Apart x l
    → (after z).next ≡ some x
    → (after x).next ≡ none
    → (after x).value ≡ t
    → t ≢ 0
    → ((y : ℕ) → y ≢ x → (after y).value ≡ (nodes y).value)
    → ((y : ℕ) → y ≢ x → y ≢ z → (after y).next ≡ (nodes y).next)
    → Links after a (l ++ (x, t) ∷ []) x
Links-snoc nodes after a [] z x t (e, f) h k last end value pos same_value same_next =
    (ap (λ y. (after y).next) (sym f) ∙ last, value, ((λ c. h (sym c)), tt), pos, (end, refl))
Links-snoc nodes after a (n ∷ l) z x t (e, v, d, p, more) h (k, ks) last end value pos same_value
      same_next =
    (
      same_next a (λ c. h (sym c)) (last-Apart nodes a n.0 l z d.0 d.1 more) ∙ e,
      same_value n.0 (λ c. k (sym c)) ∙ v,
      (d.0, Apart-snoc a l (x, t) d.1 (λ c. h (sym c))),
      p,
      Links-snoc nodes after n.0 l z x t more k ks last end value pos same_value same_next,
    )

-- The node that follows the first is taken out.
pub unlink-Links :
    (q : Threadqueue) (a : ℕ) (n : ℕ × ℕ) (l : List (ℕ × ℕ))
    → Links q.nodes a (n ∷ l) q.tail
    → Links (unlink a n.0 q).nodes a l (unlink a n.0 q).tail
unfolding unlink
unlink-Links q a n [] (e, v, d, pos, (end, last)) =
    (ap (λ (m : ThreadqueueNode). m.next) (update_same q.nodes a _) ∙ end, rw end refl)
unlink-Links q a n (m ∷ l) (e, v, d, pos, (next, w, d2, pos2, more)) = (
  ap (λ (k : ThreadqueueNode). k.next) (update_same q.nodes a _) ∙ next,
  ap (λ (k : ThreadqueueNode). k.value) (update_ne q.nodes a m.0 _ d.1.0) ∙ w,
  d.1,
  pos2,
  rw next (Links-elsewhere q.nodes m.0 l q.tail a _ d.1.0 d.1.1 more),
)
