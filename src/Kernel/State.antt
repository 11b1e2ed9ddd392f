-- ===== src/Kernel/State.antt =====
-- The kernel's data: kernel/task.h, kernel/memory.h, the variables of task.c, memory.c and
-- interrupt.c, and the constants of buildconfig.h, libs/common/types.h and message.h.
-- A `struct task *` is a number: t + 1 is &tasks[t], and 17 + c is the idle task of CPU c. The
-- number 0 is &tasks[-1], a place before the array. A NULL pointer is `none`. A `task_t` and an
-- `int` are 32-bit patterns, so -1 is 2^32 - 1.
use microkernel_book.Base.{ℕ, ◌+◌, ◌^◌, Bool, Option, List}

abbrev pub num_tasks_max : ℕ
num_tasks_max = 16

abbrev pub num_cpus_max : ℕ
num_cpus_max = 4

abbrev pub task_name_len : ℕ
task_name_len = 16

abbrev pub page_size : ℕ
page_size = 4096

abbrev pub u32_mod : ℕ
u32_mod = 2 ^ 32

-- 20 * (TICK_HZ / 1000)
abbrev pub task_quantum : ℕ
task_quantum = 20

abbrev pub irq_max : ℕ
irq_max = 32

abbrev pub ipc_any : ℕ
ipc_any = 0

abbrev pub ipc_deny : ℕ
ipc_deny = 0xffff_ffff

abbrev pub from_kernel : ℕ
from_kernel = 0xffff_ffff

abbrev pub notify_timer : ℕ
notify_timer = 1

abbrev pub notify_irq : ℕ
notify_irq = 2

abbrev pub notify_aborted : ℕ
notify_aborted = 4

abbrev pub exception_msg : ℕ
exception_msg = 1

abbrev pub notify_msg : ℕ
notify_msg = 4

-- The error codes of types.h that the kernel returns.
pub data Error : Type 0 where
  no_memory already_used still_used not_found not_allowed already_exists : Error
  invalid_arg invalid_task invalid_paddr invalid_uaddr too_many_tasks : Error
  would_block aborted dead_lock : Error

-- An `error_t`, `task_t` or `pfn_t` that a function returns: a value or a negative error code.
pub data Result (A : Type 0) : Type 0 where
  ok : A → Result A
  err : Error → Result A

-- `struct message`. The union is its 32-bit words, so that a write to one field leaves the rest.
pub record Message : Type 0 where
  pub kind : ℕ
  pub src : ℕ
  pub words : ℕ → ℕ

pub data TaskState : Type 0 where
  unused runnable blocked : TaskState

-- The flags of `ipc`: IPC_SEND, IPC_RECV, IPC_NOBLOCK and IPC_KERNEL.
pub record Flags : Type 0 where
  pub send : Bool
  pub recv : Bool
  pub noblock : Bool
  pub kernel : Bool

-- The list that an entry (`list_elem_t`) of a task stands in; `unlinked` for a NULL `next`.
pub data Link : Type 0 where
  unlinked : Link
  in_runqueue : Link
  in_senders : ℕ → Link

-- Where a task goes on when it is switched to: what its kernel stack holds. `sending` and
-- `receiving` are the points behind the `task_switch()` of `send_message` and `recv_message`, with
-- the locals that are read from there on.
pub data Context : Type 0 where
  running : Context
  sending : (dst : ℕ) → (copied_m : Message) → Flags → (src : ℕ) → (buffer : ℕ) → Context
  receiving : Flags → (buffer : ℕ) → Context

-- `struct page *`: the zone's place in the list of zones, and the index in its `pages`.
abbrev pub PageRef : Type 0
PageRef = ℕ × ℕ

-- `struct task`, without `arch` and `vm`, which only the code in riscv32/ looks into. `is_active`
-- says that `next` is linked, and `stack` stands for the kernel stack.
pub record Task : Type 0 where
  pub tid : ℕ
  pub name : List ℕ
  pub state : TaskState
  pub destroyed : Bool
  pub pager : Option ℕ
  pub timeout : ℕ
  pub ref_count : ℕ
  pub quantum : ℕ
  pub waitqueue_next : Link
  pub is_active : Bool
  pub senders : List ℕ
  pub wait_for : ℕ
  pub pages : List PageRef
  pub notifications : ℕ
  pub m : Message
  pub stack : Context

-- `struct page`. `next` is the task on whose `pages` the entry stands.
pub record Page : Type 0 where
  pub owner : Option ℕ
  pub ref_count : ℕ
  pub next : Option ℕ

pub data ZoneType : Type 0 where
  free mmio : ZoneType

-- `struct memory_zone`. The flexible array `pages` has no bound in C: an index from `num_pages` on
-- reads what stands behind it.
pub record Zone : Type 0 where
  pub type : ZoneType
  pub base : ℕ
  pub num_pages : ℕ
  pub pages : ℕ → Page

-- The static variables, the CPU that executes and each CPU's CURRENT_TASK, and the bytes of
-- physical memory.
pub record Kernel : Type 0 where
  pub tasks : ℕ → Task
  pub runqueue : List ℕ
  pub active_tasks : List ℕ
  pub cpu : ℕ
  pub current_of : ℕ → ℕ
  pub zones : List Zone
  pub bytes : ℕ → ℕ
  pub irq_listeners : ℕ → Option ℕ
  pub uptime_ticks : ℕ

-- CURRENT_TASK and IDLE_TASK.
abbrev pub current_task : Kernel → ℕ
current_task k = k.current_of k.cpu

abbrev pub idle_task : Kernel → ℕ
idle_task k = num_tasks_max + 1 + k.cpu
