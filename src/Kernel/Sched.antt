-- ===== src/Kernel/Sched.antt =====
-- kernel/task.c: the scheduler, blocking and resuming, and task IDs.
use microkernel_book.Base.{
  ℕ, zero, suc, ◌+◌, Bool, true, false, not, ◌||◌, ◌&&◌, Option, none, some, ◌==◌, leb,
  if◌then◌else◌,
}
use microkernel_book.Kernel.State.{
  Kernel, TaskState, unused, runnable, blocked, current_task, idle_task, task_quantum,
  num_tasks_max,
}
use microkernel_book.Kernel.Monad.{
  M, done, pure, ◌>>=◌, ◌>>◌, assert, get, modify, modify_task, set_task,
}
use microkernel_book.Kernel.Queues.{push_runqueue, pop_runqueue}

abbrev pub is_runnable : TaskState → Bool
is_runnable runnable = true
is_runnable _ = false

abbrev pub is_blocked : TaskState → Bool
is_blocked blocked = true
is_blocked _ = false

abbrev pub is_unused : TaskState → Bool
is_unused unused = true
is_unused _ = false

-- The choice that `scheduler` makes when the run queue gave `next`.
unfoldable pub choose : Kernel → Option ℕ → ℕ
choose k (some next) = next
choose k none =
    let current = k.tasks (current_task k) in
    if is_runnable current.state && not current.destroyed then current_task k else idle_task k

unfoldable pub scheduler : M ℕ
unfolding choose
scheduler = do next ← pop_runqueue; k ← get; pure (choose k next)

-- `if (next != IDLE_TASK) next->quantum = TASK_QUANTUM;`
unfoldable pub give_quantum : ℕ → M (Unit {0})
give_quantum next k =
    if next == idle_task k
    then done tt k
    else done tt (set_task next (λ x. record x { quantum = task_quantum }) k)

-- `if (prev->state == TASK_RUNNABLE) list_push_back(&runqueue, &prev->waitqueue_next);`
unfoldable pub requeue : ℕ → M (Unit {0})
requeue prev k = if is_runnable (k.tasks prev).state then push_runqueue prev k else done tt k

-- CURRENT_TASK = next;
unfoldable pub set_current : ℕ → M (Unit {0})
set_current next =
    modify λ k. record k { current_of = λ c. if c == k.cpu then next else k.current_of c }

-- Behind it, `next` executes; `arch_task_switch` exchanges the registers and the page table.
unfoldable pub switch_to : ℕ → ℕ → M (Unit {0})
unfolding requeue set_current
switch_to prev next = if next == prev then pure tt else (do requeue prev; set_current next)

unfoldable pub task_switch : M (Unit {0})
unfolding scheduler give_quantum switch_to
task_switch = do
  k ← get
  let prev = current_task k
  next ← scheduler
  give_quantum next
  switch_to prev next

-- The loop of `alloc_tid` with `rounds` left.
unfoldable pub alloc_loop : ℕ → Kernel → ℕ → ℕ
alloc_loop zero k i = 0
alloc_loop (suc rounds) k i =
    let rest = alloc_loop rounds k (i + 1) in
    if is_unused (k.tasks (i + 1)).state then i + 1 else rest

-- The pointer `&tasks[i]` is i + 1.
unfoldable pub alloc_tid : Kernel → ℕ
unfolding alloc_loop
alloc_tid k = alloc_loop num_tasks_max k 0

-- `tid < 0` is the sign bit.
unfoldable pub task_find : Kernel → ℕ → Option ℕ
task_find k tid =
    if leb 0x8000_0000 tid || leb num_tasks_max tid
    then none
    else if is_unused (k.tasks tid).state
    then none
    else some tid

unfoldable pub task_block : ℕ → M (Unit {0})
task_block t = do
  k ← get
  assert (not (t == idle_task k))
  assert (is_runnable (k.tasks t).state)
  modify_task t (λ x. record x { state = blocked })

unfoldable pub task_resume : ℕ → M (Unit {0})
task_resume t = do
  k ← get
  assert (is_blocked (k.tasks t).state)
  modify_task t (λ x. record x { state = runnable })
  push_runqueue t
