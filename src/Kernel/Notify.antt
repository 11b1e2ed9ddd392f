-- ===== src/Kernel/Notify.antt =====
-- kernel/ipc.c: notifications.
use microkernel_book.Base.{ℕ, Bool, ◌==◌, ◌&&◌, if◌then◌else◌, bit_or, update}
use microkernel_book.Kernel.State.{Task, ipc_any, notify_msg, from_kernel}
use microkernel_book.Kernel.Monad.{M, ◌>>=◌, ◌>>◌, get, modify_task}
use microkernel_book.Kernel.Sched.{is_blocked, task_resume}

-- The task waits in an open receive: `state == TASK_BLOCKED && wait_for == IPC_ANY`.
abbrev pub is_open : Task → Bool
is_open t = is_blocked t.state && t.wait_for == ipc_any

-- The task with a NOTIFY_MSG in its message buffer, and no notification left.
abbrev pub with_notification : ℕ → Task → Task
with_notification n t = record t {
  m = record {
    kind = notify_msg;
    src = from_kernel;
    words = update t.m.words 0 (bit_or t.notifications n);
  };
  notifications = 0;
}

unfoldable pub notify : ℕ → ℕ → M (Unit {0})
notify dst n = do
  k ← get
  if is_open (k.tasks dst)
      then (do modify_task dst (with_notification n); task_resume dst)
      else modify_task dst (λ t. record t { notifications = bit_or t.notifications n })
