-- ===== src/IntrusiveList/Ring.antt =====
-- The shape of a list of libs/common/list.c in memory.
use microkernel_book.Base.{
  ℕ, ◌≡◌, true, false, ◌||◌, List, [], ◌∷◌, arith, ◌==◌, has, Distinct, Bool-cases, inl, inr,
}
use microkernel_book.IntrusiveList.{Memory, null}

-- From `p` the `next` pointers lead through `xs` to `q`, and the `prev` pointers lead back.
abbrev pub Chain : Memory → ℕ → List ℕ → ℕ → Type 0
Chain m p [] q = ((m p).next ≡ q) × ((m q).prev ≡ p)
Chain m p (x ∷ xs) q = ((m p).next ≡ x) × ((m x).prev ≡ p) × Chain m x xs q

-- `list` heads a circular list of the distinct entries `xs`, none of them NULL.
pub record IsList (m : Memory) (list : ℕ) (xs : List ℕ) : Type 0 where
  pub chain : Chain m list xs list
  pub distinct : Distinct (list ∷ xs)
  pub ne_null : has null (list ∷ xs) ≡ false

-- Two memories agree on the nodes of a list.
abbrev pub SameOn : List ℕ → Memory → Memory → Type 0
SameOn xs m m' = (a : ℕ) → has a xs ≡ true → m' a ≡ m a

abbrev pub last : ℕ → List ℕ → ℕ
last p [] = p
last p (x ∷ xs) = last x xs

pub last-prev : (m : Memory) (p q : ℕ) (xs : List ℕ) → Chain m p xs q → (m q).prev ≡ last p xs
last-prev m p q [] c = c.1
last-prev m p q (x ∷ xs) c = last-prev m x q xs c.2

pub has-last : (p : ℕ) (xs : List ℕ) → has (last p xs) (p ∷ xs) ≡ true
has-last p [] = ground arith
has-last p (x ∷ xs) = ground (arith, has-last x xs)

-- A chain is kept by any change that spares the `next` of all but its end, and the `prev` of all
-- but its start.
pub Chain-frame :
    (m m' : Memory) (p q : ℕ) (xs : List ℕ)
    → ((a : ℕ) → has a (p ∷ xs) ≡ true → (m' a).next ≡ (m a).next)
    → ((a : ℕ) → (has a xs || (a == q)) ≡ true → (m' a).prev ≡ (m a).prev)
    → Chain m p xs q
    → Chain m' p xs q
Chain-frame m m' p q [] n v c = ground (arith, n p, v q)
Chain-frame m m' p q (x ∷ xs) n v c = (
  ground (arith, n p),
  ground (arith, v x),
  Chain-frame m m' x q xs (λ a h. n a (ground arith)) (λ a h. v a (ground arith)) c.2,
)

-- The neighbours of an entry.
pub neighbours :
    (m : Memory) (p q e : ℕ) (xs : List ℕ)
    → Chain m p xs q
    → has e xs ≡ true
    → (has (m e).prev (p ∷ xs) ≡ true) × ((has (m e).next xs || ((m e).next == q)) ≡ true)
neighbours m p q e [] c h = cc
neighbours m p q e (x ∷ []) c h = ground arith
neighbours m p q e (x ∷ y ∷ ys) c h = elim (Bool-cases (e == x)) [
  | inl hit ↦ ground arith
  | inr miss ↦ ground (arith, neighbours m x q e (y ∷ ys) c.2)
]
