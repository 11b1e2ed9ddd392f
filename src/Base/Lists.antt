-- ===== src/Base/Lists.antt =====
-- Lists measured by native numbers, and lists of pointers.
use Prim.Native.Nat.{ℕ, zero, suc, ◌+◌}
use mathlib.Core.Path.{◌≡◌, refl, ap}
use mathlib.Core.Logic.{◌≢◌, ◌⊎◌, inl, inr}
use mathlib.Core.Bool.{Bool, false, ◌||◌}
use mathlib.Core.Option.{Option, none, some}
use mathlib.Core.List.{List, [], ◌∷◌, ◌++◌}
use native.Mathlib.Omega.{arith}
use microkernel_book.Base.Tests.{◌==◌, if◌then◌else◌}

module _ {ℓ} {A : Type ℓ} where
  abbrev pub length : List A → ℕ
  length [] = 0
  length (x ∷ xs) = suc (length xs)

  pub length-append : (xs ys : List A) → length (xs ++ ys) ≡ length xs + length ys
  length-append [] ys = omega arith
  length-append (x ∷ xs) ys = omega (arith, length-append xs ys)

module _ {ℓ} {A : Type ℓ} where
  pub List-cases : (xs : List A) → (xs ≡ []) ⊎ ((x : A) × (rest : List A) × (xs ≡ x ∷ rest))
  List-cases [] = inl refl
  List-cases (x ∷ rest) = inr (x, rest, refl)

module _ {ℓ} {A : Type ℓ} where
  abbrev pub get_elem? : List A → ℕ → Option A
  get_elem? [] i = none
  get_elem? (x ∷ xs) zero = some x
  get_elem? (x ∷ xs) (suc i) = get_elem? xs i

  -- The list with one element changed; out of bounds nothing changes.
  abbrev pub modify_at : ℕ → (A → A) → List A → List A
  modify_at i f [] = []
  modify_at zero f (x ∷ xs) = f x ∷ xs
  modify_at (suc i) f (x ∷ xs) = x ∷ modify_at i f xs

  pub get_elem?-modify_at_self :
      (xs : List A) (i : ℕ) (f : A → A) {x : A}
      → get_elem? xs i ≡ some x
      → get_elem? (modify_at i f xs) i ≡ some (f x)
  get_elem?-modify_at_self [] i f h = cc
  get_elem?-modify_at_self (x ∷ xs) zero f h = ground arith
  get_elem?-modify_at_self (x ∷ xs) (suc i) f h = get_elem?-modify_at_self xs i f h

  pub get_elem?-modify_at_ne :
      (xs : List A) (i j : ℕ) (f : A → A) → j ≢ i → get_elem? (modify_at i f xs) j ≡ get_elem? xs j
  get_elem?-modify_at_ne [] i j f h = refl
  get_elem?-modify_at_ne (x ∷ xs) zero zero f h = absurd (h refl)
  get_elem?-modify_at_ne (x ∷ xs) zero (suc j) f h = refl
  get_elem?-modify_at_ne (x ∷ xs) (suc i) zero f h = refl
  get_elem?-modify_at_ne (x ∷ xs) (suc i) (suc j) f h =
      get_elem?-modify_at_ne xs i j f (λ e. h (ap suc e))

  pub get_elem?-modify_at-none :
      (xs : List A) (i : ℕ) (f : A → A)
      → get_elem? xs i ≡ none
      → get_elem? (modify_at i f xs) i ≡ none
  get_elem?-modify_at-none [] i f h = refl
  get_elem?-modify_at-none (x ∷ xs) zero f h = cc
  get_elem?-modify_at-none (x ∷ xs) (suc i) f h = get_elem?-modify_at-none xs i f h

-- Whether a pointer stands in a list.
abbrev pub has : ℕ → List ℕ → Bool
has a [] = false
has a (x ∷ xs) = (a == x) || has a xs

-- The list without the first occurrence of a pointer.
abbrev pub erase : ℕ → List ℕ → List ℕ
erase a [] = []
erase a (x ∷ xs) = if a == x then xs else x ∷ erase a xs

-- No pointer occurs twice.
abbrev pub Distinct : List ℕ → Type 0
Distinct [] = Unit {0}
Distinct (x ∷ xs) = (has x xs ≡ false) × Distinct xs

pub has-append : (a : ℕ) (xs ys : List ℕ) → has a (xs ++ ys) ≡ (has a xs || has a ys)
has-append a [] ys = refl
has-append a (x ∷ xs) ys = ground (arith, has-append a xs ys)

pub has-erase_of_ne : (a b : ℕ) (xs : List ℕ) → has a xs ≡ false → has a (erase b xs) ≡ false
has-erase_of_ne a b [] h = refl
has-erase_of_ne a b (x ∷ xs) h = ground (arith, has-erase_of_ne a b xs)

pub has-erase_ne : (a b : ℕ) (xs : List ℕ) → a ≢ b → has a (erase b xs) ≡ has a xs
has-erase_ne a b [] h = refl
has-erase_ne a b (x ∷ xs) h = ground (arith, has-erase_ne a b xs h)

pub has-erase_self : (a : ℕ) (xs : List ℕ) → Distinct xs → has a (erase a xs) ≡ false
has-erase_self a [] d = refl
has-erase_self a (x ∷ xs) d = ground (arith, has-erase_self a xs d.1)

pub erase-Distinct : (a : ℕ) (xs : List ℕ) → Distinct xs → Distinct (erase a xs)
erase-Distinct a [] d = tt
erase-Distinct a (x ∷ xs) d = ground (arith, erase-Distinct a xs d.1, has-erase_of_ne x a xs)

pub append-Distinct :
    (a : ℕ) (xs : List ℕ) → Distinct xs → has a xs ≡ false → Distinct (xs ++ a ∷ [])
append-Distinct a [] d h = (refl, tt)
append-Distinct a (x ∷ xs) d h = ground (arith, append-Distinct a xs d.1, has-append x xs (a ∷ []))

pub erase_absent : (a : ℕ) (xs : List ℕ) → has a xs ≡ false → erase a xs ≡ xs
erase_absent a [] h = refl
erase_absent a (x ∷ xs) h = ground (arith, erase_absent a xs)
