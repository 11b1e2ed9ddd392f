-- ===== src/IntrusiveList/Writes.antt =====
-- The functions of libs/common/list.c that write, on the list at hand and on other lists.
use microkernel_book.Base.{
  ℕ, ◌≡◌, ◌≢◌, refl, inl, inr, true, false, some, none, List, [], ◌∷◌, ◌++◌, arith, ◌==◌, has,
  erase, Distinct, Bool-cases, has-append, append-Distinct, erase-Distinct, has-erase_of_ne,
  fun_ext,
}
use microkernel_book.IntrusiveList.{
  Memory, null, list_init, list_insert, list_push_back, list_remove, list_pop_front,
  list_elem_nullify, set_prev, set_next,
}
use microkernel_book.IntrusiveList.Ring.{
  Chain, IsList, last, last-prev, has-last, Chain-frame, neighbours, SameOn,
}

-- Initialisation makes an empty list.
pub list_init-IsList : (m : Memory) (list : ℕ) → list ≢ null → IsList (list_init m list) list []
unfolding list_init
list_init-IsList m list h = record {
  chain = ground arith;
  distinct = (refl, tt);
  ne_null = ground arith;
}

-- The insertion behind the last entry of a chain.
insert-Chain :
    (m : Memory) (p q new : ℕ) (xs : List ℕ)
    → Chain m p xs q
    → Distinct (p ∷ xs)
    → has q xs ≡ false
    → has new (p ∷ xs) ≡ false
    → new ≢ q
    → Chain (list_insert m (last p xs) q new) p (xs ++ new ∷ []) q
unfolding list_insert
insert-Chain m p q new [] c d e f g = ground arith
insert-Chain m p q new (x ∷ xs) c d e f g = (
  ground (arith, has-last x xs),
  ground arith,
  insert-Chain m x q new xs c.2 d.1 (ground arith) (ground arith) g,
)

-- An entry taken out between its neighbours `a` and `b`.
detach : Memory → ℕ → ℕ → ℕ → Memory
unfolding list_elem_nullify set_prev set_next
detach m a b e = list_elem_nullify (set_prev (set_next m a b) b a) e

module _ (m : Memory) (a b e : ℕ) where
  detach-next : (x : ℕ) → x ≢ e → x ≢ a → (detach m a b e x).next ≡ (m x).next
  unfolding detach
  detach-next x h k = ground arith

  detach-prev : (x : ℕ) → x ≢ e → x ≢ b → (detach m a b e x).prev ≡ (m x).prev
  unfolding detach
  detach-prev x h k = ground arith

  detach-next_at : a ≢ e → (detach m a b e a).next ≡ b
  unfolding detach
  detach-next_at h = ground arith

  detach-prev_at : b ≢ e → (detach m a b e b).prev ≡ a
  unfolding detach
  detach-prev_at h = ground arith

list_remove-detach :
    (m : Memory) (e : ℕ)
    → (m e).prev ≢ e
    → (m e).next ≢ null
    → list_remove m e ≡ detach m (m e).prev (m e).next e
unfolding list_remove detach
list_remove-detach m e h k = fun_ext λ x. ground arith

detach-head :
    (m : Memory) (p e b q : ℕ) (xs : List ℕ)
    → Chain m p (e ∷ xs) q
    → (m e).next ≡ b
    → Distinct (p ∷ e ∷ xs)
    → has q (e ∷ xs) ≡ false
    → Chain (detach m p b e) p xs q
detach-head m p e b q [] c n d f = ground (arith, detach-next_at m p b e, detach-prev_at m p b e)
detach-head m p e b q (y ∷ ys) c n d f = (
  ground (arith, detach-next_at m p b e),
  ground (arith, detach-prev_at m p b e),
  Chain-frame m (detach m p b e) y q ys (λ x h. detach-next m p b e x (ground arith) (ground arith))
      (λ x h. detach-prev m p b e x (ground arith) (ground arith)) c.2.2,
)

detach-Chain :
    (m : Memory) (p q e a b : ℕ) (xs : List ℕ)
    → Chain m p xs q
    → has e xs ≡ true
    → (m e).prev ≡ a
    → (m e).next ≡ b
    → Distinct (p ∷ xs)
    → has q xs ≡ false
    → Chain (detach m a b e) p (erase e xs) q
detach-Chain m p q e a b [] c h n v d f = cc
detach-Chain m p q e a b (x ∷ xs) c h n v d f = elim (Bool-cases (e == x)) [
  | inl hit ↦
      let here : e ≡ x = ground arith in
      let back : a ≡ p = ground arith in
      rw (hit, here, back) (detach-head m p x b q xs c (ground arith) d f)
  | inr miss ↦
      let near = neighbours m x q e xs c.2 (ground arith) in
      rw miss (
        ground (arith, detach-next m a b e p, near.0),
        ground (arith, detach-prev m a b e x, near.1),
        detach-Chain m x q e a b xs c.2 (ground arith) n v d.1 (ground arith),
      )
]

prev-ne :
    (m : Memory) (p q e : ℕ) (xs : List ℕ)
    → Chain m p xs q
    → has e xs ≡ true
    → Distinct (p ∷ xs)
    → (m e).prev ≢ e
prev-ne m p q e [] c h d = cc
prev-ne m p q e (x ∷ xs) c h d = elim (Bool-cases (e == x)) [
  | inl hit ↦ λ z. ground arith
  | inr miss ↦ prev-ne m x q e xs c.2 (ground arith) d.1
]

list_push_back-insert :
    (m : Memory) (list new : ℕ) → list_push_back m list new ≡ list_insert m (m list).prev list new
unfolding list_push_back
list_push_back-insert m list new = refl

module _ {m : Memory} {list : ℕ} {xs : List ℕ} (l : IsList m list xs) where
  pub list_push_back-append :
      (new : ℕ)
      → has new (list ∷ xs) ≡ false
      → new ≢ null
      → IsList (list_push_back m list new) list (xs ++ new ∷ [])
  list_push_back-append new out h = record {
    chain =
        rw (list_push_back-insert, last-prev m list list xs l.chain)
          (insert-Chain m list list new xs l.chain l.distinct l.distinct.0 out (ground arith));
    distinct = (
      ground (arith, has-append list xs (new ∷ [])),
      append-Distinct new xs l.distinct.1 (ground arith),
    );
    ne_null = ground (arith, has-append null xs (new ∷ []), l.ne_null);
  }

  -- The neighbours of an entry are in the list, and are neither the entry nor NULL.
  entry : (e : ℕ) → has e xs ≡ true → ((m e).prev ≢ e) × ((m e).next ≢ null)
  entry e h =
      let near = neighbours m list list e xs l.chain h in
      (prev-ne m list list e xs l.chain h l.distinct, λ z. ground (arith, l.ne_null, near.1))

  -- Removing an entry of a well-formed list leaves a well-formed list of the other entries in their
  -- order.
  pub list_remove-erase : (e : ℕ) → has e xs ≡ true → IsList (list_remove m e) list (erase e xs)
  list_remove-erase e h = record {
    chain = rw (list_remove-detach m e (entry e h).0 (entry e h).1) (
        detach-Chain m list list e (m e).prev (m e).next xs l.chain h refl refl l.distinct
          l.distinct.0);
    distinct = (has-erase_of_ne list e xs l.distinct.0, erase-Distinct e xs l.distinct.1);
    ne_null = ground (arith, has-erase_of_ne null e xs, l.ne_null);
  }

-- A list is kept by any change outside its nodes.
pub IsList-frame :
    {m : Memory} (m' : Memory) {list : ℕ} {xs : List ℕ}
    → IsList m list xs
    → SameOn (list ∷ xs) m m'
    → IsList m' list xs
IsList-frame {m} m' {list} {xs} l same = record {
  chain =
      Chain-frame m m' list list xs (λ a h. ground (arith, same a h))
        (λ a h. ground (arith, same a)) l.chain;
  distinct = l.distinct;
  ne_null = l.ne_null;
}

-- `list_pop_front` is NULL on an empty list, which it leaves as it is.
pub list_pop_front-nil :
    {m : Memory} {list : ℕ} → IsList m list [] → list_pop_front m list ≡ (m, none)
unfolding list_pop_front
list_pop_front-nil l = ground (arith, l.chain)

list_pop_front-detach :
    (m : Memory) (list x : ℕ) (xs : List ℕ)
    → IsList m list (x ∷ xs)
    → list_pop_front m list ≡ (detach m list (m x).next x, some x)
unfolding list_pop_front detach
list_pop_front-detach m list x xs l = ground (arith, l.chain, l.distinct)

-- `list_pop_front` of a well-formed list that is not empty returns its first entry and leaves the
-- list of the rest.
list_pop_front-cons :
    {m : Memory} {list x : ℕ} {xs : List ℕ}
    → IsList m list (x ∷ xs)
    → ((list_pop_front m list).1 ≡ some x) × IsList (list_pop_front m list).0 list xs
list_pop_front-cons {m} {list} {x} {xs} l = rw (list_pop_front-detach m list x xs l) (
  refl,
  record {
    chain = detach-head m list x (m x).next list xs l.chain refl l.distinct l.distinct.0;
    distinct = ground (arith, l.distinct);
    ne_null = ground (arith, l.ne_null);
  },
)

detach-outside : (m : Memory) (a b e x : ℕ) → x ≢ e → x ≢ a → x ≢ b → detach m a b e x ≡ m x
unfolding detach
detach-outside m a b e x h k n = ground arith

insert-outside : (m : Memory) (a b e x : ℕ) → x ≢ e → x ≢ a → x ≢ b → list_insert m a b e x ≡ m x
unfolding list_insert
insert-outside m a b e x h k n = ground arith

-- What the three functions leave alone: every node but the list's own and the new entry.
module _ {m : Memory} {list : ℕ} {xs : List ℕ} (l : IsList m list xs) (a : ℕ)
    (out : has a (list ∷ xs) ≡ false) where
  ne_of_has : (b : ℕ) → has b (list ∷ xs) ≡ true → a ≢ b
  ne_of_has b h e = ground (arith, e)

  list_push_back-outside : (new : ℕ) → a ≢ new → list_push_back m list new a ≡ m a
  list_push_back-outside new h =
      rw (list_push_back-insert, last-prev m list list xs l.chain)
        (insert-outside m (last list xs) list new a h (ne_of_has _ (has-last list xs))
          (ground arith))

  list_remove-outside : (e : ℕ) → has e xs ≡ true → list_remove m e a ≡ m a
  list_remove-outside e h =
      let near = neighbours m list list e xs l.chain h in
      rw (list_remove-detach m e (entry l e h).0 (entry l e h).1) (
        detach-outside m _ _ e a (ne_of_has e (ground arith)) (ne_of_has _ near.0)
          (ne_of_has _ (ground (arith, near.1))))

-- The other lists stay as they are.
module _ {m : Memory} {list other : ℕ} {xs ys : List ℕ} (l : IsList m list xs)
    (o : IsList m other ys)
    (apart : (a : ℕ) → has a (other ∷ ys) ≡ true → has a (list ∷ xs) ≡ false) where
  -- Pushing an entry to one well-formed list keeps every other one that shares no node with it and
  -- does not hold the entry.
  pub list_push_back-frame :
      (new : ℕ) → has new (other ∷ ys) ≡ false → IsList (list_push_back m list new) other ys
  list_push_back-frame new h =
      IsList-frame _ o λ a i. list_push_back-outside l a (apart a i) new (λ e. ground (arith, e))

  -- Removing an entry from the well-formed list that it stands in keeps every other list that
  -- shares no node with it.
  pub list_remove-frame : (e : ℕ) → has e xs ≡ true → IsList (list_remove m e) other ys
  list_remove-frame e h = IsList-frame _ o λ a i. list_remove-outside l a (apart a i) e h

-- It is the removal of the first entry.
list_pop_front-remove :
    (m : Memory) (list x : ℕ) (xs : List ℕ)
    → IsList m list (x ∷ xs)
    → list_pop_front m list ≡ (list_remove m x, some x)
list_pop_front-remove m list x xs l =
    let near = entry l x (ground arith) in
    rw (list_pop_front-detach m list x xs l, list_remove-detach m x near.0 near.1, l.chain.1)

-- The first entry goes, every list apart from it is kept.
pub list_pop_front-frame :
    {m : Memory} {list other x : ℕ} {xs ys : List ℕ}
    → IsList m list (x ∷ xs)
    → IsList m other ys
    → ((a : ℕ) → has a (other ∷ ys) ≡ true → has a (list ∷ x ∷ xs) ≡ false)
    → IsList (list_pop_front m list).0 other ys
list_pop_front-frame {m} {list} {other} {x} {xs} {ys} l o apart =
    rw (list_pop_front-remove m list x xs l) (list_remove-frame l o apart x (ground arith))

-- An entry of no list is not removed again.
pub list_remove_unlinked : (m : Memory) (e : ℕ) → (m e).next ≡ null → list_remove m e ≡ m
unfolding list_remove
list_remove_unlinked m e h = ground arith

-- Removal marks the entry, so that a second removal does nothing.
pub list_remove_twice : (m : Memory) (e : ℕ) → list_remove (list_remove m e) e ≡ list_remove m e
unfolding list_remove
list_remove_twice m e = ground arith
