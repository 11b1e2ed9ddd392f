-- ===== src/Kernel/Syscall/Tests.antt =====
-- System calls on a machine with two tasks.
use microkernel_book.Base.{◌≡◌, ◌⊎◌, inl, inr, refl, arith, ◌==◌, ==_iff, Bool-cases}
use microkernel_book.Kernel.State.{Error, ok, err, invalid_task}
use microkernel_book.Kernel.Monad.{done, pure}
use microkernel_book.Kernel.Sched.{task_find}
use microkernel_book.Kernel.Task.{Arch}
use microkernel_book.Kernel.Invariant.{Ensures, Inv}
use microkernel_book.Kernel.Invariant.Tests.{machine, machine-Inv, no_message}
use microkernel_book.Kernel.Invariant.Resume.{Calling}
use microkernel_book.Kernel.Syscall.{Machine, value, handle_syscall, sys_pm_alloc}
use microkernel_book.Kernel.Syscall.Rights.{MayAllocate, sys_pm_alloc-MayAllocate}
use microkernel_book.Kernel.Syscall.Messages.{Named, handle_syscall-Inv}

-- Functions of riscv32/ that do nothing.
abbrev quiet_arch : Arch
quiet_arch = record {
  vm_init = λ t. pure (ok tt);
  task_init = λ t ip entry arg. pure (ok tt);
  vm_destroy = λ t. pure tt;
  task_destroy = λ t. pure tt;
  send_ipi = pure tt;
}

abbrev quiet : Machine
quiet = record {
  arch = quiet_arch;
  vm_map = λ t u p a. pure (ok tt);
  vm_unmap = λ t u. pure (ok tt);
  irq_enable = λ i. pure (ok tt);
  irq_disable = λ i. pure (ok tt);
  hinavm_run = 0x8020_1000;
  user = λ a. 65;
  user_message = λ a. no_message;
  stack = λ a. 0;
  scratch = no_message;
}

-- Task 1 may not allocate for task 2, whose pager it is not.
pm_alloc_refused : sys_pm_alloc 2 4096 0 machine ≡ done (value (err invalid_task)) machine
unfolding sys_pm_alloc task_find
pm_alloc_refused = refl

sys_pm_alloc-MayAllocate_example :
    MayAllocate machine 2
    ⊎ ((e : Error) × (sys_pm_alloc 2 4096 0 machine ≡ done (value (err e)) machine))
sys_pm_alloc-MayAllocate_example = sys_pm_alloc-MayAllocate machine 2 4096 0

machine-Named : Named machine
machine-Named t h used = elim (Bool-cases (t == 2)) [
  | inl e ↦ rw ((==_iff t 2).0 e) refl
  | inr n2 ↦ elim (Bool-cases (t == 1)) [
    | inl e ↦ rw ((==_iff t 1).0 e) refl
    | inr n1 ↦ elim (Bool-cases (t == 17)) [
      | inl e ↦ absurd (omega (arith, (==_iff t 17).0 e))
      | inr n17 ↦ absurd (used (rw (n2, n1, n17) refl))
    ]
  ]
]

caller : Calling machine
caller = record { inv = machine-Inv; runs = refl; in_call = refl }

-- Task 1 sends a message to task 2.
handle_syscall-Inv_example :
    Ensures (λ _ k'. Inv k') (handle_syscall 3 quiet 2 0 0x1000 0x1_0000 0 1 machine)
handle_syscall-Inv_example =
    handle_syscall-Inv 3 quiet machine 2 0 0x1000 0x1_0000 0 1 caller machine-Named refl
      (λ h. ground arith)
