-- ===== src/Kernel/Ipc.antt =====
-- kernel/ipc.c: sending and receiving. A call that switches to another task ends with `switched`,
-- and the task goes on with `resume` when it is switched to again.
use microkernel_book.Base.{
  ℕ, Bool, true, false, not, ◌&&◌, ◌||◌, List, [], ◌∷◌, Option, none, some, ◌==◌, ltb, leb,
  if◌then◌else◌, bit_and, ◌-◌, update,
}
use microkernel_book.Kernel.State.{
  Kernel, Task, Message, Flags, Result, ok, err, invalid_arg, invalid_uaddr, would_block, dead_lock,
  aborted, ipc_any, ipc_deny, from_kernel, notify_aborted, notify_msg, current_task, Context,
  running, sending, receiving, page_size,
}
use microkernel_book.Kernel.Monad.{M, pure, panic, ◌>>=◌, ◌>>◌, assert, get, modify_task}
use microkernel_book.Kernel.Queues.{push_senders, remove_waitqueue}
use microkernel_book.Kernel.Sched.{is_blocked, task_block, task_resume, task_switch}

-- The message buffer of the caller: its address and what it holds when the call begins.
pub record Buffer : Type 0 where
  pub address : ℕ
  pub content : Message

-- How a call ends: with a result, which holds the message written to the buffer, if one was; or
-- with a switch to another task.
pub data Ipc : Type 0 where
  finished : Result (Option Message) → Ipc
  switched : Ipc

-- riscv32/include/arch_types.h
unfoldable pub arch_is_mappable_uaddr : ℕ → Bool
arch_is_mappable_uaddr uaddr = leb page_size uaddr && ltb uaddr 0x8000_0000

-- The copy of the caller's message: `memcpy`, or `memcpy_from_user` with its check.
unfoldable pub copy_in : Buffer → Flags → Result Message
unfolding arch_is_mappable_uaddr
copy_in m flags =
    if flags.kernel
    then ok m.content
    else if arch_is_mappable_uaddr m.address
    then ok m.content
    else err invalid_uaddr

-- The copy to the caller's buffer: `memcpy`, or `memcpy_to_user` with its check.
unfoldable pub copy_out : ℕ → Message → Flags → Result (Option Message)
unfolding arch_is_mappable_uaddr
copy_out address m flags =
    if flags.kernel
    then ok (some m)
    else if arch_is_mappable_uaddr address
    then ok (some m)
    else err invalid_uaddr

-- Whether a blocked task takes a message from the sender.
abbrev pub is_ready : Task → ℕ → Bool
is_ready dst tid = is_blocked dst.state && (dst.wait_for == ipc_any || dst.wait_for == tid)

-- Whether a task with this ID waits to send to the current task.
unfoldable pub waits_to_send : Kernel → ℕ → List ℕ → Bool
waits_to_send k tid [] = false
waits_to_send k tid (t ∷ ts) = if (k.tasks t).tid == tid then true else waits_to_send k tid ts

-- The end of `send_message`: the message is handed over and the receiver resumed.
unfoldable pub deliver : ℕ → Message → Flags → M (Result (Unit {0}))
deliver dst copied_m flags = do
  k ← get
  let src = if flags.kernel then from_kernel else (k.tasks (current_task k)).tid
  modify_task dst (λ t. record t { m = record copied_m { src = src } })
  task_resume dst
  pure (ok tt)

-- The sender joins the queue of the destination and gives the CPU away.
unfoldable pub wait_to_send : ℕ → Message → Flags → ℕ → ℕ → M Ipc
wait_to_send dst copied_m flags src buffer = do
  k ← get
  let current = current_task k
  push_senders dst current
  task_block current
  modify_task current (λ t. record t { stack = sending dst copied_m flags src buffer })
  task_switch
  pure switched

-- The first sender that the receiver takes a message from.
unfoldable pub find_sender : Kernel → ℕ → List ℕ → Option ℕ
find_sender k src [] = none
find_sender k src (t ∷ ts) =
    if src == ipc_any || src == (k.tasks t).tid then some t else find_sender k src ts

-- A sender leaves the queue and runs again; the receiver then waits for that sender alone.
unfoldable pub admit_sender : ℕ → Option ℕ → M ℕ
admit_sender src none = pure src
admit_sender src (some sender) = do
  k ← get
  assert (is_blocked (k.tasks sender).state)
  assert ((k.tasks sender).wait_for == ipc_deny)
  remove_waitqueue sender
  task_resume sender
  pure (k.tasks sender).tid

-- The receiver waits for a message from `src` and gives the CPU away.
unfoldable pub wait_to_recv : ℕ → ℕ → Flags → ℕ → M Ipc
wait_to_recv current src flags buffer = do
  modify_task current (λ t. record t { wait_for = src })
  task_block current
  modify_task current (λ t. record t { stack = receiving flags buffer })
  task_switch
  pure switched

-- A pending notification as a message. The rest of the buffer is what the stack held.
abbrev pub notification : Message → ℕ → Message
notification scratch n = record {
  kind = notify_msg;
  src = from_kernel;
  words = update scratch.words 0 n;
}

-- `recv_message` up to its `task_switch()`.
unfoldable pub recv_message : Message → ℕ → ℕ → Flags → M Ipc
recv_message scratch src buffer flags = do
  k ← get
  let current = current_task k
  let pending = (k.tasks current).notifications
  if src == ipc_any && not (pending == 0)
      then (do
        modify_task current (λ t. record t { notifications = 0 })
        pure (finished (copy_out buffer (notification scratch pending) flags)))
      else if flags.noblock
      then pure (finished (err would_block))
      else (do
        src ← admit_sender src (find_sender k src (k.tasks current).senders)
        wait_to_recv current src flags buffer)

-- `ipc` behind a send that ended with a result.
unfoldable pub then_recv : Message → Result (Unit {0}) → ℕ → ℕ → Flags → M Ipc
then_recv scratch (err e) src buffer flags = pure (finished (err e))
then_recv scratch (ok _) src buffer flags =
    if flags.recv then recv_message scratch src buffer flags else pure (finished (ok none))

-- `send_message` with the message copied, and what `ipc` does behind it.
unfoldable pub send_copied : Message → ℕ → ℕ → ℕ → Message → Flags → M Ipc
send_copied scratch dst src buffer copied_m flags = do
  k ← get
  let current = k.tasks (current_task k)
  if is_ready (k.tasks dst) current.tid
      then (do r ← deliver dst copied_m flags; then_recv scratch r src buffer flags)
      else if flags.noblock
      then pure (finished (err would_block))
      else if waits_to_send k (k.tasks dst).tid current.senders
      then pure (finished (err dead_lock))
      else wait_to_send dst copied_m flags src buffer

unfoldable pub send_message : Message → ℕ → ℕ → Buffer → Flags → M Ipc
send_message scratch dst src m flags = do
  k ← get
  if dst == current_task k then pure (finished (err invalid_arg)) else elim (copy_in m flags) [
    | ok copied_m ↦ send_copied scratch dst src m.address copied_m flags
    | err e ↦ pure (finished (err e))
  ]

-- `scratch` is what the stack holds where `recv_message` keeps its copy.
unfoldable pub ipc : Message → ℕ → ℕ → Buffer → Flags → M Ipc
ipc scratch dst src m flags =
    if flags.send
    then send_message scratch dst src m flags
    else then_recv scratch (ok tt) src m.address flags

-- `send_message` behind its `task_switch()`, and what `ipc` does behind it.
unfoldable pub resume_send : Message → ℕ → Message → Flags → ℕ → ℕ → M Ipc
resume_send scratch dst copied_m flags src buffer = do
  k ← get
  let current = current_task k
  let n = (k.tasks current).notifications
  if not (bit_and n notify_aborted == 0)
      then (do
        modify_task current
            (λ t. record t { notifications = bit_and n (0xffff_ffff - notify_aborted) })
        pure (finished (err aborted)))
      else (do r ← deliver dst copied_m flags; then_recv scratch r src buffer flags)

-- `recv_message` behind its `task_switch()`.
unfoldable pub resume_recv : Flags → ℕ → M Ipc
resume_recv flags buffer = do
  k ← get
  let current = current_task k
  modify_task current (λ t. record t { wait_for = ipc_deny })
  pure (finished (copy_out buffer (k.tasks current).m flags))

-- What a task does when it is switched to.
abbrev pub resume_at : Message → Context → M Ipc
resume_at scratch running k = panic
resume_at scratch (sending dst m flags src buffer) k = resume_send scratch dst m flags src buffer k
resume_at scratch (receiving flags buffer) k = resume_recv flags buffer k

unfoldable pub resume : Message → M Ipc
unfolding resume_send resume_recv
resume scratch = do
  k ← get
  modify_task (current_task k) (λ t. record t { stack = running })
  resume_at scratch (k.tasks (current_task k)).stack
