-- ===== src/IntrusiveList.antt =====
-- libs/common/list.c and list.h: the intrusive doubly linked list of the kernel and the servers.
-- A memory maps an address to the `struct list` that stands there; NULL is the address 0. Loops
-- take fuel, and `none` says that it ran out.
pub mod Ring
pub mod Writes
pub mod Loops
pub mod Tests
use microkernel_book.Base.{
  ℕ, zero, suc, ◌+◌, Bool, true, false, not, Option, none, some, List, [], ◌∷◌, ◌==◌, if◌then◌else◌,
  update,
}

-- `struct list`: a list head (`list_t`) and an entry (`list_elem_t`) alike.
pub record Node : Type 0 where
  pub prev : ℕ
  pub next : ℕ

abbrev pub Memory : Type 0
Memory = ℕ → Node

abbrev pub null : ℕ
null = 0

-- `p->prev = v` and `p->next = v`.
unfoldable pub set_prev : Memory → ℕ → ℕ → Memory
set_prev m p v = update m p (record { prev = v; next = (m p).next })

unfoldable pub set_next : Memory → ℕ → ℕ → Memory
set_next m p v = update m p (record { prev = (m p).prev; next = v })

unfoldable pub list_insert : Memory → ℕ → ℕ → ℕ → Memory
unfolding set_prev set_next
list_insert m prev next new =
    set_next (set_prev (set_next (set_prev m new prev) new next) next new) prev new

unfoldable pub list_elem_nullify : Memory → ℕ → Memory
unfolding set_prev set_next
list_elem_nullify m elem = set_next (set_prev m elem null) elem null

unfoldable pub list_init : Memory → ℕ → Memory
unfolding set_prev set_next
list_init m list = set_next (set_prev m list list) list list

unfoldable pub list_elem_init : Memory → ℕ → Memory
unfolding list_elem_nullify
list_elem_init m elem = list_elem_nullify m elem

unfoldable pub list_is_empty : Memory → ℕ → Bool
list_is_empty m list = (m list).next == list

unfoldable pub list_is_linked : Memory → ℕ → Bool
list_is_linked m elem = not ((m elem).next == null)

-- The loop of `list_len`, from `node` on.
unfoldable pub len_loop : ℕ → Memory → ℕ → ℕ → ℕ → Option ℕ
len_loop zero m list node len = none
len_loop (suc fuel) m list node len =
    let rest = len_loop fuel m list (m node).next (len + 1) in
    if node == list then some len else rest

unfoldable pub list_len : ℕ → Memory → ℕ → Option ℕ
unfolding len_loop
list_len fuel m list = len_loop fuel m list (m list).next 0

-- The loop of `list_contains`, from `node` on.
unfoldable pub contains_loop : ℕ → Memory → ℕ → ℕ → ℕ → Option Bool
contains_loop zero m list elem node = none
contains_loop (suc fuel) m list elem node =
    let rest = contains_loop fuel m list elem (m node).next in
    if node == list then some false else if node == elem then some true else rest

unfoldable pub list_contains : ℕ → Memory → ℕ → ℕ → Option Bool
unfolding contains_loop
list_contains fuel m list elem = contains_loop fuel m list elem (m list).next

-- `elem->prev->next = elem->next` and then `elem->next->prev = elem->prev`.
unfoldable pub unlink : Memory → ℕ → Memory
unfolding set_prev set_next
unlink m elem =
    let m' = set_next m (m elem).prev (m elem).next in set_prev m' (m' elem).next (m' elem).prev

unfoldable pub list_remove : Memory → ℕ → Memory
unfolding list_is_linked unlink list_elem_nullify
list_remove m elem = if list_is_linked m elem then list_elem_nullify (unlink m elem) elem else m

-- The two DEBUG_ASSERTs are conditions on the caller here, and checks in Kernel.Queues.
unfoldable pub list_push_back : Memory → ℕ → ℕ → Memory
unfolding list_insert
list_push_back m list new_tail = list_insert m (m list).prev list new_tail

-- The new memory and the head entry, none (NULL) if the list is empty.
unfoldable pub list_pop_front : Memory → ℕ → Memory × Option ℕ
unfolding set_prev set_next list_elem_nullify
list_pop_front m list =
    let head = (m list).next in
    let next = (m head).next in
    if head == list
    then (m, none)
    else (list_elem_nullify (set_prev (set_next m list next) next list) head, some head)

-- `LIST_FOR_EACH`: the entry behind the current one is read before the body runs, so the body may
-- remove the current entry. The body works on a state that holds the memory.
module _ {S : Type 0} (memory : S → Memory) (body : ℕ → S → S) where
  unfoldable pub for_each_loop : ℕ → ℕ → ℕ → S → Option S
  for_each_loop zero list elem s = none
  for_each_loop (suc fuel) list elem s =
      let rest = for_each_loop fuel list (memory s elem).next (body elem s) in
      if elem == list then some s else rest

  unfoldable pub list_for_each : ℕ → ℕ → S → Option S
  unfolding for_each_loop
  list_for_each fuel list s = for_each_loop fuel list (memory s list).next s
