-- ===== src/Kernel/Ids.antt =====
-- Task IDs: `alloc_tid` and `task_find` of kernel/task.c.
pub mod Tests
use microkernel_book.Base.{
  ℕ, zero, suc, ◌+◌, ◌≤◌, ◌<◌, ◌≡◌, ◌≢◌, ◌⊎◌, ◌↔◌, inl, inr, refl, Bool, true, false, some, none,
  arith, ◌==◌, Bool-cases, if◌then◌else◌,
}
use microkernel_book.Kernel.State.{Kernel, Task, TaskState, unused, num_tasks_max}
use microkernel_book.Kernel.Monad.{set_task}
use microkernel_book.Kernel.Sched.{is_unused, alloc_loop, alloc_tid, task_find}

-- Every slot from `&tasks[lo]` up to, not including, `&tasks[hi]` is taken.
abbrev pub AllUsed : Kernel → ℕ → ℕ → Type 0
AllUsed k lo hi = (i : ℕ) → lo ≤ i → i < hi → (k.tasks (i + 1)).state ≢ unused

is_unused-unused : (s : TaskState) → is_unused s ≡ true → s ≡ unused
is_unused-unused s h = ground arith

step :
    (k : Kernel) (i hi : ℕ)
    → is_unused (k.tasks (i + 1)).state ≡ false
    → AllUsed k (i + 1) hi
    → AllUsed k i hi
step k i hi used all j lo h = elim (Bool-cases (j == i)) [
  | inl same ↦ λ u. ground (arith, u)
  | inr other ↦ all j (ground arith) h
]

-- The first unused slot from `i` on is found, or there is none.
alloc_loop_lem :
    (rounds : ℕ) (k : Kernel) (i : ℕ)
    → ((alloc_loop rounds k i ≡ 0) × AllUsed k i (i + rounds))
      ⊎ ((j : ℕ) × (alloc_loop rounds k i ≡ j + 1)
          × (i ≤ j)
          × (j < i + rounds)
          × ((k.tasks (j + 1)).state ≡ unused)
          × AllUsed k i j)
unfolding alloc_loop
alloc_loop_lem zero k i = inl (refl, λ j lo hi. absurd (omega arith))
alloc_loop_lem (suc rounds) k i = elim (Bool-cases (is_unused (k.tasks (i + 1)).state)) [
  | inl u ↦ rw u (
      inr
        (i, refl, omega arith, omega arith, is_unused-unused _ u, λ j lo hi. absurd (omega arith)))
  | inr used ↦ rw used (elim (alloc_loop_lem rounds k (i + 1)) [
    | inl (e, all) ↦ inl (e, λ j l h. step k i (i + 1 + rounds) used all j l (omega arith))
    | inr (j, e, lo, hi, u, all) ↦ inr (j, e, omega arith, omega arith, u, step k i j used all)
  ])
]

-- `alloc_tid` gives the lowest task ID whose slot is unused, or 0 if all slots are taken.
pub alloc_tid_lem :
    (k : Kernel)
    → ((alloc_tid k ≡ 0) × AllUsed k 0 num_tasks_max)
      ⊎ ((i : ℕ) × (alloc_tid k ≡ i + 1)
          × (i < num_tasks_max)
          × ((k.tasks (i + 1)).state ≡ unused)
          × AllUsed k 0 i)
unfolding alloc_tid
alloc_tid_lem k = elim (alloc_loop_lem num_tasks_max k 0) [
  | inl none_left ↦ inl none_left
  | inr (i, e, _, hi, u, all) ↦ inr (i, e, hi, u, all)
]

-- `task_find` gives the task with this ID exactly if the slot is in use and the ID is below
-- NUM_TASKS_MAX: the task in the last slot is never found.
pub task_find_lem :
    (k : Kernel) (tid t : ℕ)
    → (task_find k tid ≡ some t)
      ↔ ((t ≡ tid) × (tid < num_tasks_max) × ((k.tasks tid).state ≢ unused))
unfolding task_find
task_find_lem k tid t = ground arith

-- A task whose ID `alloc_tid` gave is found under it once its slot is in use, if the ID is not 0
-- and not the last one.
pub task_find-alloc_tid :
    (k : Kernel) (f : Task → Task)
    → alloc_tid k ≢ 0
    → alloc_tid k ≢ num_tasks_max
    → (f (k.tasks (alloc_tid k))).state ≢ unused
    → task_find (set_task (alloc_tid k) f k) (alloc_tid k) ≡ some (alloc_tid k)
task_find-alloc_tid k f n l u = elim (alloc_tid_lem k) [
  | inl (z, _) ↦ absurd (n z)
  | inr (i, e, hi, _, _) ↦
      (task_find_lem (set_task (alloc_tid k) f k) (alloc_tid k) (alloc_tid k)).1
        (refl, omega arith, ground (arith, u))
]
