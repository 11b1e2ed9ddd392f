-- ===== src/Kernel/Task.antt =====
-- kernel/task.c: creating and destroying tasks. What riscv32/ does for it is a parameter, `Arch`. A
-- name is its bytes before the NUL.
pub mod Destroy
pub mod Tests
use microkernel_book.Base.{
  ℕ, zero, suc, ◌+◌, ◌-◌, ◌*◌, ◌/◌, ◌%◌, ◌^◌, Bool, true, false, not, ◌&&◌, ◌||◌, Option, none,
  some, List, [], ◌∷◌, ◌==◌, ltb, leb, if◌then◌else◌, has,
}
use microkernel_book.Kernel.State.{
  Kernel, Task, Result, ok, err, unused, runnable, blocked, unlinked, running, ipc_deny,
  task_name_len, u32_mod, too_many_tasks, invalid_arg, still_used, no_memory, notify_aborted,
  current_task, idle_task,
}
use microkernel_book.Kernel.Monad.{
  M, done, panic, waiting, pure, ◌>>=◌, ◌>>◌, assert, get, modify, modify_task, set_task, and_ok,
}
use microkernel_book.Kernel.Queues.{push_active, remove_active, remove_waitqueue}
use microkernel_book.Kernel.Sched.{alloc_tid, is_runnable, is_unused, task_resume}
use microkernel_book.Kernel.Notify.{notify}
use microkernel_book.Kernel.Memory.{
  pm_free_by_list, pm_alloc, pm_free, pm_own_page, align_up, AllocFlags,
}

-- `arch_vm_init`, `arch_task_init` (task, ip, kernel_entry, arg), `arch_vm_destroy`,
-- `arch_task_destroy` and `arch_send_ipi(IPI_RESCHEDULE)`.
pub record Arch : Type 0 where
  pub vm_init : ℕ → M (Result (Unit {0}))
  pub task_init : ℕ → ℕ → ℕ → ℕ → M (Result (Unit {0}))
  pub vm_destroy : ℕ → M (Unit {0})
  pub task_destroy : ℕ → M (Unit {0})
  pub send_ipi : M (Unit {0})

-- libs/common/string.c: at most `room` bytes of the name and a NUL.
unfoldable pub strcpy_safe : ℕ → List ℕ → List ℕ
strcpy_safe zero src = []
strcpy_safe (suc room) [] = []
strcpy_safe (suc room) (c ∷ src) = c ∷ strcpy_safe room src

-- The fields that `init_task_struct` sets first.
abbrev pub fresh : ℕ → List ℕ → Option ℕ → Task → Task
fresh tid name pager t = record t {
  tid = tid;
  destroyed = false;
  quantum = 0;
  timeout = 0;
  wait_for = ipc_deny;
  ref_count = 0;
  pager = pager;
  name = strcpy_safe (task_name_len - 1) name;
  waitqueue_next = unlinked;
  is_active = false;
  senders = [];
  pages = [];
}

-- `if (pager) pager->ref_count++;`
abbrev pub hold_pager : Option ℕ → M (Unit {0})
hold_pager none = pure tt
hold_pager (some p) = modify_task p (λ t. record t { ref_count = (t.ref_count + 1) % u32_mod })

-- `if (err != OK) { arch_vm_destroy(&task->vm); return err; }`
abbrev pub or_destroy_vm : Arch → ℕ → Result (Unit {0}) → M (Result (Unit {0}))
or_destroy_vm arch task (ok _) = pure (ok tt)
or_destroy_vm arch task (err e) = arch.vm_destroy task >> pure (err e)

-- A task whose stack `arch_task_init` made starts in user mode or at the kernel entry.
unfoldable pub init_task_struct :
    Arch → ℕ → ℕ → List ℕ → ℕ → Option ℕ → ℕ → ℕ → M (Result (Unit {0}))
init_task_struct arch task tid name ip pager kernel_entry arg = do
  modify_task task (fresh tid name pager)
  r ← arch.vm_init task
  and_ok r λ _. (do
    r ← arch.task_init task ip kernel_entry arg
    r ← or_destroy_vm arch task r
    and_ok r λ _. (do
      hold_pager pager
      modify_task task (λ t. record t { stack = running })
      modify_task task (λ t. record t { state = blocked })
      pure (ok tt)))

unfoldable pub task_create : Arch → List ℕ → ℕ → Option ℕ → M (Result ℕ)
task_create arch name ip pager = do
  k ← get
  let tid = alloc_tid k
  if tid == 0 then pure (err too_many_tasks) else (do
    r ← init_task_struct arch tid tid name ip pager 0 0
    and_ok r λ _. (do push_active tid; task_resume tid; pure (ok tid)))

-- `sizeof(struct hinavm)`: 128 instructions and their number.
abbrev pub hinavm_size : ℕ
hinavm_size = 516

-- A 32-bit word's byte at an offset.
abbrev pub byte_at : ℕ → ℕ → ℕ
byte_at word offset = word / 256 ^ offset % 256

-- The writes to `hinavm->insts` and `hinavm->num_insts`.
unfoldable pub write_program : ℕ → (ℕ → ℕ) → ℕ → Kernel → Kernel
write_program paddr insts num_insts k = record k {
  bytes = λ a.
      if leb (paddr + 512) a && ltb a (paddr + 516)
      then byte_at num_insts (a - (paddr + 512))
      else if leb paddr a && ltb a (paddr + 4 * num_insts)
      then byte_at (insts ((a - paddr) / 4)) ((a - paddr) % 4)
      else k.bytes a;
}

-- `pm_free(hinavm_paddr, hinavm_size)` if the task could not be made.
abbrev pub or_free : ℕ → Result (Unit {0}) → M (Result (Unit {0}))
or_free paddr (ok _) = pure (ok tt)
or_free paddr (err e) = pm_free paddr (align_up hinavm_size) >> pure (err e)

-- The page's flags: PM_ALLOC_UNINITIALIZED.
abbrev pub uninitialized : AllocFlags
uninitialized = record { zeroed = false; aligned = false }

-- `hinavm_run` is the address of that function.
unfoldable pub hinavm_create : Arch → ℕ → List ℕ → (ℕ → ℕ) → ℕ → Option ℕ → M (Result ℕ)
unfolding write_program
hinavm_create arch hinavm_run name insts num_insts pager = do
  k ← get
  let tid = alloc_tid k
  if tid == 0 then pure (err too_many_tasks) else (do
    paddr ← pm_alloc (align_up hinavm_size) none uninitialized
    if paddr == 0 then pure (err no_memory) else (do
      modify (write_program paddr insts num_insts)
      r ← init_task_struct arch tid tid name 0 pager hinavm_run paddr
      r ← or_free paddr r
      and_ok r λ _. (do pm_own_page paddr tid; push_active tid; task_resume tid; pure (ok tid))))

-- The loop that waits until no other CPU runs the task.
unfoldable pub wait_stopped : ℕ → Arch → ℕ → M (Unit {0})
wait_stopped zero arch task k = waiting
wait_stopped (suc fuel) arch task k =
    let rest = wait_stopped fuel arch task in
    if not (is_runnable (k.tasks task).state) || has task k.runqueue
    then done tt k
    else (arch.send_ipi >>= λ _. rest) k

-- The loop over the senders; `notify` with NOTIFY_ABORTED does not change the list.
unfoldable pub abort_senders : List ℕ → M (Unit {0})
abort_senders [] k = done tt k
abort_senders (t ∷ ts) k = (notify t notify_aborted >>= λ _. abort_senders ts) k

-- `task->pager->ref_count--`, which reads through NULL if there is no pager.
abbrev pub release_pager : Option ℕ → M (Unit {0})
release_pager none k = panic
release_pager (some p) k =
    done tt (set_task p (λ t. record t { ref_count = (t.ref_count + u32_mod - 1) % u32_mod }) k)

unfoldable pub task_destroy : ℕ → Arch → ℕ → M (Result (Unit {0}))
task_destroy fuel arch task = do
  k ← get
  assert (not (task == current_task k))
  assert (not (task == idle_task k))
  assert (not (is_unused (k.tasks task).state))
  assert (ltb (k.tasks task).ref_count 0x8000_0000)
  if (k.tasks task).tid == 1
      then pure (err invalid_arg)
      else if not ((k.tasks task).ref_count == 0)
      then pure (err still_used)
      else (do
        modify_task task (λ t. record t { destroyed = true })
        wait_stopped fuel arch task
        k ← get
        abort_senders (k.tasks task).senders
        remove_active task
        remove_waitqueue task
        arch.vm_destroy task
        arch.task_destroy task
        k ← get
        pm_free_by_list (k.tasks task).pages
        modify_task task (λ t. record t { state = unused })
        k ← get
        release_pager (k.tasks task).pager
        pure (ok tt))
