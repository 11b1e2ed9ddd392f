-- ===== src/IntrusiveList/Loops.antt =====
-- The loops of libs/common/list.c: `list_len`, `list_contains` and LIST_FOR_EACH.
use microkernel_book.Base.{
  ℕ, zero, suc, ◌+◌, ◌<◌, ◌≡◌, false, some, List, [], ◌∷◌, arith, has, length, erase,
}
use microkernel_book.IntrusiveList.{
  Memory, len_loop, list_len, contains_loop, list_contains, for_each_loop, list_for_each,
  list_remove,
}
use microkernel_book.IntrusiveList.Ring.{Chain, IsList}
use microkernel_book.IntrusiveList.Writes.{list_remove-erase}

len_loop-Chain :
    (fuel : ℕ) (m : Memory) (list p n : ℕ) (xs : List ℕ)
    → Chain m p xs list
    → has list xs ≡ false
    → length xs < fuel
    → len_loop fuel m list (m p).next n ≡ some (n + length xs)
unfolding len_loop
len_loop-Chain zero m list p n xs c d h = absurd (omega arith)
len_loop-Chain (suc fuel) m list p n [] c d h = ground arith
len_loop-Chain (suc fuel) m list p n (x ∷ xs) c d h =
    ground (arith, len_loop-Chain fuel m list x (n + 1) xs c.2)

contains_loop-Chain :
    (fuel : ℕ) (m : Memory) (list e p : ℕ) (xs : List ℕ)
    → Chain m p xs list
    → has list xs ≡ false
    → length xs < fuel
    → contains_loop fuel m list e (m p).next ≡ some (has e xs)
unfolding contains_loop
contains_loop-Chain zero m list e p xs c d h = absurd (omega arith)
contains_loop-Chain (suc fuel) m list e p [] c d h = ground arith
contains_loop-Chain (suc fuel) m list e p (x ∷ xs) c d h =
    ground (arith, contains_loop-Chain fuel m list e x xs c.2)

module _ {m : Memory} {list : ℕ} {xs : List ℕ} (l : IsList m list xs) where
  -- `list_len` of a well-formed list ends, with fuel above its length, and is the number of its
  -- entries.
  pub list_len-length : (fuel : ℕ) → length xs < fuel → list_len fuel m list ≡ some (length xs)
  unfolding list_len
  list_len-length fuel h =
      ground (arith, len_loop-Chain fuel m list list 0 xs l.chain l.distinct.0 h)

  -- `list_contains` of a well-formed list ends, with fuel above its length, and tells whether the
  -- entry is in the list.
  pub list_contains-has :
      (fuel e : ℕ) → length xs < fuel → list_contains fuel m list e ≡ some (has e xs)
  unfolding list_contains
  list_contains-has fuel e h = contains_loop-Chain fuel m list e list xs l.chain l.distinct.0 h

abbrev first : ℕ → List ℕ → ℕ
first list [] = list
first list (x ∷ xs) = x

abbrev visit : {S : Type 0} → (ℕ → S → S) → List ℕ → S → S
visit body [] s = s
visit body (x ∷ xs) s = visit body xs (body x s)

module _ {S : Type 0} (memory : S → Memory) (body : ℕ → S → S) (list : ℕ) (P : List ℕ → S → Type 0)
    (step : (x : ℕ) (xs : List ℕ) (s : S)
      → P (x ∷ xs) s
      → ((memory s x).next ≡ first list xs) × P xs (body x s)) where
  for_each_loop-visit :
      (fuel : ℕ) (xs : List ℕ) (s : S)
      → P xs s
      → has list xs ≡ false
      → length xs < fuel
      → (for_each_loop memory body fuel list (first list xs) s ≡ some (visit body xs s))
        × P [] (visit body xs s)
  unfolding for_each_loop
  for_each_loop-visit zero xs s p d h = absurd (omega arith)
  for_each_loop-visit (suc fuel) [] s p d h = (ground arith, p)
  for_each_loop-visit (suc fuel) (x ∷ xs) s p d h =
      let now = step x xs s p in
      let later = for_each_loop-visit fuel xs (body x s) now.1 (ground arith) (omega arith) in
      (ground (arith, now.0, later.0), later.1)

first-next : (m : Memory) (p q : ℕ) (xs : List ℕ) → Chain m p xs q → (m p).next ≡ first q xs
first-next m p q [] c = c.0
first-next m p q (x ∷ xs) c = c.0

-- `LIST_FOR_EACH` visits every entry once, in order, though the body may change the list, as long
-- as the body keeps a property of the entries that are left which says where the next one is.
pub list_for_each-visit :
    {S : Type 0} (memory : S → Memory) (body : ℕ → S → S) (list : ℕ) (P : List ℕ → S → Type 0)
    → ((x : ℕ) (xs : List ℕ) (s : S)
        → P (x ∷ xs) s
        → ((memory s x).next ≡ first list xs) × P xs (body x s))
    → (fuel : ℕ) (xs : List ℕ) (s : S) → IsList (memory s) list xs
    → P xs s
    → length xs < fuel
    → (list_for_each memory body fuel list s ≡ some (visit body xs s)) × P [] (visit body xs s)
unfolding list_for_each
list_for_each-visit memory body list P step fuel xs s l p h =
    rw (first-next (memory s) list list xs l.chain)
      (for_each_loop-visit memory body list P step fuel xs s p l.distinct.0 h)

remove_first :
    (m : Memory) (list x : ℕ) (xs : List ℕ)
    → IsList m list (x ∷ xs)
    → IsList (list_remove m x) list xs
remove_first m list x xs i =
    let hit : erase x (x ∷ xs) ≡ xs = ground arith in
    rw hit at (list_remove-erase i x (ground arith))

-- LIST_FOR_EACH with a body that removes the current entry ends on a well-formed list, with fuel
-- above its length, and leaves it empty.
pub list_for_each-remove :
    (m : Memory) (list fuel : ℕ) (xs : List ℕ)
    → IsList m list xs
    → length xs < fuel
    → (m' : Memory) × (list_for_each (λ m. m) (λ e m. list_remove m e) fuel list m ≡ some m')
      × IsList m' list []
list_for_each-remove m list fuel xs l h =
    let r =
      list_for_each-visit (λ m. m) (λ e m. list_remove m e) list (λ xs m. IsList m list xs)
        (λ x xs s i. (first-next s x list xs i.chain.2, remove_first s list x xs i)) fuel xs m l l
        h in
    (visit (λ e m. list_remove m e) xs m, r.0, r.1)
