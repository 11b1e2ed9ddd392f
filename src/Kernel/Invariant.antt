-- ===== src/Kernel/Invariant.antt =====
-- The invariant that the scheduler of task.c and the message passing of ipc.c rely on: which task
-- stands in which queue, and what state it is in there.
pub mod Switch
pub mod Resume
pub mod Notices
pub mod Block
pub mod Admit
pub mod Calls
pub mod Turns
pub mod Delivery
pub mod Ping
pub mod Tests
use microkernel_book.Base.{
  ℕ, ◌≤◌, ◌<◌, ◌≡◌, ◌≢◌, ◌⊎◌, Bool, true, false, Option, none, some, List, has, Distinct,
}
use microkernel_book.Kernel.State.{
  Kernel, Task, TaskState, unused, runnable, blocked, Link, unlinked, in_runqueue, in_senders,
  Context, running, sending, receiving, ipc_deny, num_tasks_max, current_task, idle_task,
}
use microkernel_book.Kernel.Monad.{M, and_then, Outcome, done, panic, waiting}

-- The outcome is neither a failed assertion nor a wait without end, and satisfies `Q`.
abbrev pub Ensures : {A : Type 0} → (A → Kernel → Type 0) → Outcome A → Type 0
Ensures Q (done a k) = Q a k
Ensures Q panic = ⊥
Ensures Q waiting = ⊥

-- The rule for a step behind another.
pub then-Ensures :
    {A B : Type 0} (P : A → Kernel → Type 0) (Q : B → Kernel → Type 0) (o : Outcome A) (f : A → M B)
    → Ensures P o
    → ((a : A) (k : Kernel) → P a k → Ensures Q (f a k))
    → Ensures Q (and_then o f)
then-Ensures P Q (done a k) f h g = g a k h
then-Ensures P Q panic f h g = absurd h
then-Ensures P Q waiting f h g = absurd h

-- The destination that a task waits to send to, and whether a task waits in a receive.
abbrev pub sends_to : Context → Option ℕ
sends_to running = none
sends_to (sending dst m f src b) = some dst
sends_to (receiving f b) = none

abbrev pub is_receiving : Context → Bool
is_receiving running = false
is_receiving (sending dst m f src b) = false
is_receiving (receiving f b) = true

-- A place of the array `tasks`, with the task ID that belongs to it.
abbrev pub IsUser : Kernel → ℕ → Type 0
IsUser k t = (0 < t) × (t ≤ num_tasks_max) × ((k.tasks t).tid ≡ t)

-- A task in the run queue, and a task in the queue of senders of `d`.
abbrev pub Queued : Kernel → ℕ → Type 0
Queued k t = ((k.tasks t).state ≡ runnable) × ((k.tasks t).waitqueue_next ≡ in_runqueue)

abbrev pub Sending : Kernel → ℕ → ℕ → Type 0
Sending k d t =
    ((k.tasks t).waitqueue_next ≡ in_senders d)
    × ((k.tasks t).state ≡ blocked)
    × ((k.tasks t).wait_for ≡ ipc_deny)
    × (sends_to (k.tasks t).stack ≡ some d)
    × IsUser k t

-- A task that waits for a message from `s` alone.
abbrev pub WaitsFor : Kernel → ℕ → ℕ → Type 0
WaitsFor k s r = ((k.tasks r).state ≡ blocked) × ((k.tasks r).wait_for ≡ s) × IsUser k r

-- What holds between the steps of a kernel call, too.
pub record QueuesInv (k : Kernel) : Type 0 where
  pub run_distinct : Distinct k.runqueue
  pub in_run : (t : ℕ) → has t k.runqueue ≡ true → Queued k t
  pub run_in : (t : ℕ) → (k.tasks t).waitqueue_next ≡ in_runqueue → has t k.runqueue ≡ true
  pub send_distinct : (d : ℕ) → Distinct (k.tasks d).senders
  pub in_send : (d t : ℕ) → has t (k.tasks d).senders ≡ true → Sending k d t
  pub send_in :
      (d t : ℕ) → (k.tasks t).waitqueue_next ≡ in_senders d → has t (k.tasks d).senders ≡ true
  -- A blocked sender is queued.
  pub sending_in :
      (d t : ℕ)
      → (k.tasks t).state ≡ blocked
      → sends_to (k.tasks t).stack ≡ some d
      → has t (k.tasks d).senders ≡ true
  -- A sender that runs again was admitted: its receiver waits for it alone.
  pub admitted :
      (s r : ℕ)
      → (k.tasks s).state ≡ runnable
      → sends_to (k.tasks s).stack ≡ some r
      → WaitsFor k s r
  -- A task takes messages only while it is in a receive.
  pub denies :
      (t : ℕ)
      → (k.tasks t).state ≡ runnable
      → is_receiving (k.tasks t).stack ≡ false
      → (k.tasks t).wait_for ≡ ipc_deny
  pub waits :
      (t : ℕ)
      → (k.tasks t).state ≡ blocked
      → (k.tasks t).wait_for ≢ ipc_deny
      → is_receiving (k.tasks t).stack ≡ true
  -- No two tasks wait to send to each other.
  pub no_mutual :
      (s d : ℕ)
      → (k.tasks s).state ≡ blocked
      → sends_to (k.tasks s).stack ≡ some d
      → (k.tasks d).state ≡ blocked
      → sends_to (k.tasks d).stack ≡ some s
      → ⊥
  pub users : (t : ℕ) → (k.tasks t).state ≡ runnable → IsUser k t
  pub idle_blocked : (k.tasks (idle_task k)).state ≡ blocked
  pub idle_denies : (k.tasks (idle_task k)).wait_for ≡ ipc_deny
  pub idle_unlinked : (k.tasks (idle_task k)).waitqueue_next ≡ unlinked
  pub idle_running : (k.tasks (idle_task k)).stack ≡ running

-- The current task may be switched away from: it is blocked, or runnable and in no queue.
abbrev pub MaySwitch : Kernel → Type 0
MaySwitch k =
    ((k.tasks (current_task k)).state ≡ blocked)
    ⊎ (((k.tasks (current_task k)).state ≡ runnable)
        × ((k.tasks (current_task k)).waitqueue_next ≡ unlinked))

-- What holds between the kernel calls.
pub record Inv (k : Kernel) : Type 0 where
  pub queues : QueuesInv k
  pub current_unlinked : (k.tasks (current_task k)).waitqueue_next ≡ unlinked
  pub current_runs : (current_task k ≡ idle_task k) ⊎ ((k.tasks (current_task k)).state ≡ runnable)
