-- ===== src/Kernel/Ids/Tests.antt =====
-- Task IDs on a machine with two tasks.
use microkernel_book.Base.{ℕ, ◌+◌, ◌<◌, ◌≡◌, ◌⊎◌, refl}
use microkernel_book.Kernel.State.{unused, num_tasks_max}
use microkernel_book.Kernel.Sched.{alloc_loop, alloc_tid}
use microkernel_book.Kernel.Ids.{AllUsed, alloc_tid_lem}
use microkernel_book.Kernel.Invariant.Tests.{machine}

alloc_tid_lem_example :
    ((alloc_tid machine ≡ 0) × AllUsed machine 0 num_tasks_max)
    ⊎ ((i : ℕ) × (alloc_tid machine ≡ i + 1)
        × (i < num_tasks_max)
        × ((machine.tasks (i + 1)).state ≡ unused)
        × AllUsed machine 0 i)
alloc_tid_lem_example = alloc_tid_lem machine

machine-alloc_tid : alloc_tid machine ≡ 3
unfolding alloc_tid alloc_loop
machine-alloc_tid = refl
