-- ===== src/Kernel/Invariant/Admit.antt =====
-- The loop of `recv_message` in kernel/ipc.c: a receiver that lets a waiting sender in.
use microkernel_book.Base.{
  ℕ, ◌≡◌, ◌≢◌, ap, true, false, some, [], ◌∷◌, arith, has, erase, has-append, has-erase_ne,
  has-erase_self, erase-Distinct, append-Distinct,
}
use microkernel_book.Kernel.State.{
  Kernel, Flags, runnable, blocked, unlinked, in_runqueue, in_senders, current_task,
}
use microkernel_book.Kernel.Monad.{done, set_task}
use microkernel_book.Kernel.Queues.{remove_waitqueue, push_runqueue, unlink_from}
use microkernel_book.Kernel.Sched.{task_resume}
use microkernel_book.Kernel.Ipc.{admit_sender}
use microkernel_book.Kernel.Invariant.{QueuesInv, Sending, Queued, WaitsFor, sends_to}
use microkernel_book.Kernel.Invariant.Switch.{pushed}
use microkernel_book.Kernel.Invariant.Resume.{Calling}
use microkernel_book.Kernel.Invariant.Block.{awaiting, caller-ne-idle}

-- A sender taken out of the queue of `c`.
abbrev freed : Kernel → ℕ → ℕ → Kernel
freed k c s =
    set_task s (λ x. record x { waitqueue_next = unlinked })
      (set_task c (λ x. record x { senders = erase s x.senders }) k)

remove_waitqueue-freed :
    (k : Kernel) (c s : ℕ)
    → (k.tasks s).waitqueue_next ≡ in_senders c
    → remove_waitqueue s k ≡ done tt (freed k c s)
unfolding remove_waitqueue
remove_waitqueue-freed k c s e =
    ap (λ l. done tt (set_task s (λ x. record x { waitqueue_next = unlinked }) (unlink_from s l k)))
      e

pub task_resume-pushed :
    (k : Kernel) (t : ℕ)
    → (k.tasks t).state ≡ blocked
    → (k.tasks t).waitqueue_next ≡ unlinked
    → has t k.runqueue ≡ false
    → task_resume t k ≡ done tt (pushed (set_task t (λ x. record x { state = runnable }) k) t)
unfolding task_resume push_runqueue
task_resume-pushed k t b l n = ground arith

-- The sender `s` out of the queue of `c` and in the run queue.
abbrev pub let_in : Kernel → ℕ → ℕ → Kernel
let_in k c s = pushed (set_task s (λ x. record x { state = runnable }) (freed k c s)) s

module _ (k : Kernel) (call : Calling k) (flags : Flags) (buffer s : ℕ)
    (h : has s (k.tasks (current_task k)).senders ≡ true) where
  open call use {inv, runs, in_call}
  open inv use {queues as v, current_unlinked}

  sender-Sending : Sending k (current_task k) s
  sender-Sending = v.in_send (current_task k) s h

  pub sender-ne-caller : s ≢ current_task k
  sender-ne-caller e = ground (arith, sender-Sending, runs)

  -- The sender is in no queue of senders any more.
  left : (d : ℕ) → has s ((let_in k (current_task k) s).tasks d).senders ≡ false
  left d = ground (
    arith,
    sender-Sending,
    v.in_send d s,
    has-erase_self s (k.tasks d).senders (v.send_distinct d),
  )

  let_in-Sending :
      (d u : ℕ)
      → has u ((let_in k (current_task k) s).tasks d).senders ≡ true
      → Sending (awaiting (let_in k (current_task k) s) (current_task k) s flags buffer) d u
  let_in-Sending d u i =
      ground (arith, v.in_send d u, left d, has-erase_ne u s (k.tasks d).senders, runs)

  -- The state when the receiver waits for the sender that it let in.
  abbrev after : Kernel
  after = awaiting (let_in k (current_task k) s) (current_task k) s flags buffer

  in_run_after : (u : ℕ) → has u after.runqueue ≡ true → Queued after u
  in_run_after u i = ground (
    arith,
    v.in_run u,
    current_unlinked,
    has-append u k.runqueue (s ∷ []),
    sender-ne-caller,
    sender-Sending,
  )

  run_in_after :
      (u : ℕ) → (after.tasks u).waitqueue_next ≡ in_runqueue → has u after.runqueue ≡ true
  run_in_after u i = ground (arith, v.run_in u, has-append u k.runqueue (s ∷ []))

  send_in_after :
      (d u : ℕ)
      → (after.tasks u).waitqueue_next ≡ in_senders d
      → has u (after.tasks d).senders ≡ true
  send_in_after d u i = ground (arith, v.send_in d u, has-erase_ne u s (k.tasks d).senders)

  sending_in_after :
      (d u : ℕ)
      → (after.tasks u).state ≡ blocked
      → sends_to (after.tasks u).stack ≡ some d
      → has u (after.tasks d).senders ≡ true
  sending_in_after d u i j = ground (arith, v.sending_in d u, has-erase_ne u s (k.tasks d).senders)

  admitted_after :
      (t r : ℕ)
      → (after.tasks t).state ≡ runnable
      → sends_to (after.tasks t).stack ≡ some r
      → WaitsFor after t r
  admitted_after t r i j = ground (
    arith,
    v.admitted t r,
    runs,
    sender-Sending,
    sender-ne-caller,
    v.users (current_task k),
    v.users t,
  )

  no_mutual_after :
      (a d : ℕ)
      → (after.tasks a).state ≡ blocked
      → sends_to (after.tasks a).stack ≡ some d
      → (after.tasks d).state ≡ blocked
      → sends_to (after.tasks d).stack ≡ some a
      → ⊥
  no_mutual_after a d h i j l = ground (arith, v.no_mutual a d, sender-Sending, runs)

  pub let_in-QueuesInv : QueuesInv (after)
  let_in-QueuesInv = record {
    run_distinct =
        append-Distinct s k.runqueue v.run_distinct (ground (arith, v.in_run s, sender-Sending));
    in_run = in_run_after;
    run_in = run_in_after;
    send_distinct = λ d. ground (arith, v.send_distinct d, erase-Distinct s (k.tasks d).senders);
    in_send = λ d u i. let_in-Sending d u (ground arith);
    send_in = send_in_after;
    sending_in = sending_in_after;
    admitted = admitted_after;
    denies = λ u i j. ground (arith, v.denies u, sender-Sending);
    waits = λ u i j. ground (arith, v.waits u);
    no_mutual = no_mutual_after;
    users = λ u i. ground (arith, v.users u, sender-Sending);
    idle_blocked = ground (arith, v.idle_blocked, v.idle_unlinked, sender-Sending);
    idle_denies = ground (arith, v.idle_denies, caller-ne-idle k call);
    idle_unlinked = ground (arith, v.idle_unlinked, sender-Sending);
    idle_running = ground (arith, v.idle_running, caller-ne-idle k call);
  }

  pub admit_sender-let_in :
      (src : ℕ) → admit_sender src (some s) k ≡ done s (let_in k (current_task k) s)
  unfolding admit_sender
  admit_sender-let_in src =
      let (l, b, d, _, i) = sender-Sending in
      ground (
        arith,
        remove_waitqueue-freed k (current_task k) s l,
        task_resume-pushed (freed k (current_task k) s) s (ground arith) (ground arith)
            (ground (arith, v.in_run s)),
      )
