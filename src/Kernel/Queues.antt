-- ===== src/Kernel/Queues.antt =====
-- The kernel's calls of list.c on `waitqueue_next` and `next` of a task. A list is the sequence of
-- its entries, and an entry knows the list that it stands in; IntrusiveList is about the pointers.
use microkernel_book.Base.{ℕ, Bool, true, false, not, [], ◌∷◌, ◌++◌, has, erase, Option, none, some}
use microkernel_book.Kernel.State.{Kernel, Link, unlinked, in_runqueue, in_senders}
use microkernel_book.Kernel.Monad.{M, ◌>>=◌, ◌>>◌, assert, get, modify, modify_task, pure, set_task}

abbrev pub is_unlinked : Link → Bool
is_unlinked unlinked = true
is_unlinked _ = false

-- `list_push_back(&runqueue, &task->waitqueue_next)`
unfoldable pub push_runqueue : ℕ → M (Unit {0})
push_runqueue t = do
  k ← get
  assert (not (has t k.runqueue))
  assert (is_unlinked (k.tasks t).waitqueue_next)
  modify (λ k. record (set_task t (λ x. record x { waitqueue_next = in_runqueue }) k) {
    runqueue = k.runqueue ++ t ∷ [];
  })

-- `LIST_POP_FRONT(&runqueue, struct task, waitqueue_next)`
unfoldable pub pop_runqueue : M (Option ℕ)
pop_runqueue k = elim k.runqueue [
  | [] ↦ pure none k
  | t ∷ rest ↦
      pure (some t)
        (record (set_task t (λ x. record x { waitqueue_next = unlinked }) k) { runqueue = rest })
]

-- `list_push_back(&dst->senders, &task->waitqueue_next)`
unfoldable pub push_senders : ℕ → ℕ → M (Unit {0})
push_senders dst t = do
  k ← get
  assert (not (has t (k.tasks dst).senders))
  assert (is_unlinked (k.tasks t).waitqueue_next)
  modify_task dst (λ x. record x { senders = x.senders ++ t ∷ [] })
  modify_task t (λ x. record x { waitqueue_next = in_senders dst })

-- The list that an entry stands in loses it.
abbrev pub unlink_from : ℕ → Link → Kernel → Kernel
unlink_from t unlinked k = k
unlink_from t in_runqueue k = record k { runqueue = erase t k.runqueue }
unlink_from t (in_senders d) k = set_task d (λ x. record x { senders = erase t x.senders }) k

-- `list_remove(&task->waitqueue_next)`
unfoldable pub remove_waitqueue : ℕ → M (Unit {0})
remove_waitqueue t = modify λ k.
    set_task t (λ x. record x { waitqueue_next = unlinked })
      (unlink_from t (k.tasks t).waitqueue_next k)

-- `list_push_back(&active_tasks, &task->next)`
unfoldable pub push_active : ℕ → M (Unit {0})
push_active t = do
  k ← get
  assert (not (has t k.active_tasks))
  assert (not (k.tasks t).is_active)
  modify (λ k. record (set_task t (λ x. record x { is_active = true }) k) {
    active_tasks = k.active_tasks ++ t ∷ [];
  })

-- `list_remove(&task->next)`
unfoldable pub remove_active : ℕ → M (Unit {0})
remove_active t = modify λ k. record (set_task t (λ x. record x { is_active = false }) k) {
  active_tasks = erase t k.active_tasks;
}
