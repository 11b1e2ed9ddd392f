-- ===== src/Kernel/Invariant/Resume.antt =====
-- `notify` and the end of `send_message` in kernel/ipc.c: waking a task that waits.
use microkernel_book.Base.{
  ℕ, ◌≡◌, ◌≢◌, ◌⊎◌, inl, inr, refl, true, false, some, arith, Bool-cases, if◌then◌else◌, bit_or,
}
use microkernel_book.Kernel.State.{
  Kernel, Task, Link, Context, running, sending, receiving, runnable, blocked, unlinked,
  in_runqueue, in_senders, ipc_deny, ipc_any, from_kernel, current_task, Message, Flags, ok,
}
use microkernel_book.Kernel.Monad.{done, set_task}
use microkernel_book.Kernel.Queues.{push_runqueue}
use microkernel_book.Kernel.Sched.{task_resume}
use microkernel_book.Kernel.Notify.{notify, is_open, with_notification}
use microkernel_book.Kernel.Ipc.{deliver, is_ready}
use microkernel_book.Kernel.Invariant.{Ensures, sends_to, is_receiving, IsUser, QueuesInv, Inv}
use microkernel_book.Kernel.Invariant.Switch.{
  pushed, pushed-QueuesInv, not-has_unlinked, SameQueues-QueuesInv,
}

sends-not-receiving : (c : Context) (d : ℕ) → sends_to c ≡ some d → is_receiving c ≡ false
sends-not-receiving running d h = refl
sends-not-receiving (sending dst m f s b) d h = refl
sends-not-receiving (receiving f b) d h = cc

pub Link-cases : (l : Link) → (l ≡ unlinked) ⊎ (l ≡ in_runqueue) ⊎ ((d : ℕ) × (l ≡ in_senders d))
Link-cases unlinked = inl refl
Link-cases in_runqueue = inr (inl refl)
Link-cases (in_senders d) = inr (inr (d, refl))

-- A task that waits in a receive stands in no queue.
pub receiver-unlinked :
    (k : Kernel) (t : ℕ)
    → QueuesInv k
    → (k.tasks t).state ≡ blocked
    → (k.tasks t).wait_for ≢ ipc_deny
    → (k.tasks t).waitqueue_next ≡ unlinked
receiver-unlinked k t v b w = elim (Link-cases (k.tasks t).waitqueue_next) [
  | inl e ↦ e
  | inr (inl e) ↦ absurd (ground (arith, v.run_in t, v.in_run t))
  | inr (inr (d, e)) ↦ absurd (w (v.in_send d t (v.send_in d t e)).2)
]

abbrev woken : Kernel → ℕ → Kernel
woken k t = set_task t (λ x. record x { state = runnable }) k

-- No sender that was admitted waits for this task.
abbrev pub NotAwaited : Kernel → ℕ → Type 0
NotAwaited k t = (s : ℕ) → (k.tasks s).state ≡ runnable → sends_to (k.tasks s).stack ≡ some t → ⊥

woken-QueuesInv :
    (k : Kernel) (t : ℕ)
    → QueuesInv k
    → (k.tasks t).state ≡ blocked
    → (k.tasks t).wait_for ≢ ipc_deny
    → IsUser k t
    → NotAwaited k t
    → QueuesInv (woken k t)
woken-QueuesInv k t v b w i n = record {
  run_distinct = v.run_distinct;
  in_run = λ u h. ground (arith, v.in_run u);
  run_in = λ u h. ground (arith, v.run_in u);
  send_distinct = λ d. ground (arith, v.send_distinct d);
  in_send = λ d u h. ground (arith, v.in_send d u);
  send_in = λ d u h. ground (arith, v.send_in d u);
  sending_in = λ d u h s. ground (arith, v.sending_in d u);
  admitted = λ s r h j.
      ground (arith, v.admitted s r, n s, v.waits t b w, sends-not-receiving (k.tasks t).stack r);
  denies = λ u h j. ground (arith, v.denies u, v.waits t b w);
  waits = λ u h j. ground (arith, v.waits u);
  no_mutual = λ a d h i j l. ground (arith, v.no_mutual a d);
  users = λ u h. ground (arith, v.users u);
  idle_blocked = ground (arith, v.idle_blocked, v.idle_denies);
  idle_denies = ground (arith, v.idle_denies);
  idle_unlinked = ground (arith, v.idle_unlinked);
  idle_running = ground (arith, v.idle_running);
}

-- The state in which a waiting task got a message and runs again.
abbrev pub resumed : Kernel → ℕ → Kernel
resumed k t = pushed (woken k t) t

module _ (k : Kernel) (t : ℕ) (v : QueuesInv k) (b : (k.tasks t).state ≡ blocked)
    (w : (k.tasks t).wait_for ≢ ipc_deny) (i : IsUser k t) (n : NotAwaited k t) where
  resumed-QueuesInv : QueuesInv (resumed k t)
  resumed-QueuesInv =
      pushed-QueuesInv (woken k t) t (woken-QueuesInv k t v b w i n) (ground arith)
        (ground (arith, receiver-unlinked k t v b w))

  pub task_resume-resumed : task_resume t k ≡ done tt (resumed k t)
  unfolding task_resume push_runqueue
  task_resume-resumed =
      ground
        (arith, receiver-unlinked k t v b w, not-has_unlinked k t v (receiver-unlinked k t v b w))

-- What the invariant says behind a wake-up: the task is in the run queue, another one still runs.
resumed-Inv :
    (k : Kernel) (t : ℕ)
    → Inv k
    → (k.tasks t).state ≡ blocked
    → (k.tasks t).wait_for ≢ ipc_deny
    → IsUser k t
    → NotAwaited k t
    → Inv (resumed k t)
resumed-Inv k t v b w i n = record {
  queues = resumed-QueuesInv k t v.queues b w i n;
  current_unlinked = ground (arith, v.current_unlinked, v.current_runs, v.queues.idle_denies);
  current_runs = ground (arith, v.current_runs);
}

-- A message buffer and pending notifications are no part of the queues.
abbrev SameButMessage : Task → Task → Type 0
SameButMessage x y =
    (y.state ≡ x.state)
    × (y.tid ≡ x.tid)
    × (y.waitqueue_next ≡ x.waitqueue_next)
    × (y.senders ≡ x.senders)
    × (y.wait_for ≡ x.wait_for)
    × (y.stack ≡ x.stack)

pub set_task-Inv :
    (k : Kernel) (t : ℕ) (f : Task → Task)
    → SameButMessage (k.tasks t) (f (k.tasks t))
    → Inv k
    → Inv (set_task t f k)
set_task-Inv k t f s v = record {
  queues = SameQueues-QueuesInv k _ (refl, refl, λ u. ground arith) v.queues;
  current_unlinked = ground (arith, v.current_unlinked);
  current_runs = ground (arith, v.current_runs);
}

-- An open receive waits for no sender in particular, so no admitted sender counts on it.
pub open-NotAwaited :
    (k : Kernel) (t : ℕ) → QueuesInv k → (k.tasks t).wait_for ≡ ipc_any → NotAwaited k t
open-NotAwaited k t v e s r j = ground (arith, v.admitted s t r j, v.users s r)

-- `notify` to a slot of `tasks`, from a state with the invariant, keeps it and fails no assertion,
-- whether the task waits in an open receive or not.
pub notify-Inv :
    (k : Kernel) (dst n : ℕ) → Inv k → IsUser k dst → Ensures (λ _ k'. Inv k') (notify dst n k)
unfolding notify
notify-Inv k dst n v i = elim (Bool-cases (is_open (k.tasks dst))) [
  | inl o ↦
      let k' : Kernel = set_task dst (with_notification n) k in
      let v' : Inv k' =
        set_task-Inv k dst (with_notification n) (refl, refl, refl, refl, refl, refl) v in
      let e : (k'.tasks dst).wait_for ≡ ipc_any = ground arith in
      let b : (k'.tasks dst).state ≡ blocked = ground arith in
      let w : (k'.tasks dst).wait_for ≢ ipc_deny = ground arith in
      let i' : IsUser k' dst = ground arith in
      let a : NotAwaited k' dst = open-NotAwaited k' dst v'.queues e in
      rw (o, task_resume-resumed k' dst v'.queues b w i' a) (resumed-Inv k' dst v' b w i' a)
  | inr c ↦ rw c (
      set_task-Inv k dst (λ t. record t { notifications = bit_or t.notifications n })
        (refl, refl, refl, refl, refl, refl) v)
]

-- The current task is in a system call of its own: it runs, and its stack is not used up.
pub record Calling (k : Kernel) : Type 0 where
  pub inv : Inv k
  pub runs : (k.tasks (current_task k)).state ≡ runnable
  pub in_call : (k.tasks (current_task k)).stack ≡ running

-- The message in the receiver's buffer, with the sender that the kernel vouches for.
abbrev pub stamped : Kernel → Message → Flags → Task → Task
stamped k copied_m flags t = record t {
  m = record copied_m {
    src = if flags.kernel then from_kernel else (k.tasks (current_task k)).tid;
  };
}

abbrev pub delivered : Kernel → ℕ → Message → Flags → Kernel
delivered k dst copied_m flags = resumed (set_task dst (stamped k copied_m flags) k) dst

module _ (k : Kernel) (dst : ℕ) (copied_m : Message) (flags : Flags) (c : Calling k)
    (i : IsUser k dst) (ready : is_ready (k.tasks dst) (k.tasks (current_task k)).tid ≡ true) where
  stamped-Inv : Inv (set_task dst (stamped k copied_m flags) k)
  stamped-Inv =
      set_task-Inv k dst (stamped k copied_m flags) (refl, refl, refl, refl, refl, refl) c.inv

  caller-IsUser : IsUser k (current_task k)
  caller-IsUser = c.inv.queues.users _ c.runs

  ready-NotAwaited : NotAwaited k dst
  ready-NotAwaited s r j =
      ground
        (arith, c.inv.queues.admitted s dst r j, c.inv.queues.users s r, caller-IsUser, c.in_call)

  -- A message to a task that waits for it arrives in its buffer.
  pub deliver-delivered :
      deliver dst copied_m flags k ≡ done (ok tt) (delivered k dst copied_m flags)
  unfolding deliver
  deliver-delivered =
      let woke =
        task_resume-resumed (set_task dst (stamped k copied_m flags) k) dst stamped-Inv.queues
          (ground arith) (ground (arith, caller-IsUser)) (ground arith)
          (λ s r j. ready-NotAwaited s (ground arith) (ground arith)) in
      rw woke

  pub delivered-Calling : Calling (delivered k dst copied_m flags)
  delivered-Calling = record {
    inv =
        resumed-Inv (set_task dst (stamped k copied_m flags) k) dst stamped-Inv (ground arith)
          (ground (arith, caller-IsUser)) (ground arith)
          (λ s r j. ready-NotAwaited s (ground arith) (ground arith));
    runs = ground (arith, c.runs);
    in_call = ground (arith, c.in_call);
  }
