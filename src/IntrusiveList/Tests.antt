-- ===== src/IntrusiveList/Tests.antt =====
-- A list of two entries, and the theorems at it.
use microkernel_book.Base.{ℕ, ◌≡◌, refl, true, false, [], ◌∷◌, arith, has}
use microkernel_book.IntrusiveList.{Memory, list_init, list_push_back, list_remove}
use microkernel_book.IntrusiveList.Ring.{IsList}
use microkernel_book.IntrusiveList.Writes.{
  list_init-IsList, list_push_back-append, list_remove-erase, IsList-frame,
}

abbrev blank : Memory
blank = λ _. record { prev = 0; next = 0 }

abbrev empty : Memory
empty = list_init blank 8

empty-IsList : IsList empty 8 []
empty-IsList = list_init-IsList blank 8 (omega arith)

abbrev two : Memory
two = list_push_back (list_push_back empty 8 3) 8 5

two-IsList : IsList two 8 (3 ∷ 5 ∷ [])
two-IsList =
    list_push_back-append (list_push_back-append empty-IsList 3 refl (omega arith)) 5 refl
      (omega arith)

list_remove-erase_example : IsList (list_remove two 3) 8 (5 ∷ [])
list_remove-erase_example = list_remove-erase two-IsList 3 refl

-- Two lists in one memory.
abbrev with_other : Memory
with_other = list_init two 9

other-IsList : IsList with_other 9 []
other-IsList = list_init-IsList two 9 (omega arith)

both-IsList : IsList with_other 8 (3 ∷ 5 ∷ [])
unfolding list_init
both-IsList = IsList-frame with_other two-IsList (λ a i. ground arith)

both-apart : (a : ℕ) → has a (9 ∷ []) ≡ true → has a (8 ∷ 3 ∷ 5 ∷ []) ≡ false
both-apart a h = ground arith
