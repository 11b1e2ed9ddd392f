-- ===== src/Kernel/Invariant/Block.antt =====
-- The waits of `send_message` and `recv_message` in kernel/ipc.c.
use microkernel_book.Base.{
  ℕ, ◌≡◌, ◌≢◌, inl, false, [], ◌∷◌, ◌++◌, arith, has, has-append, append-Distinct,
}
use microkernel_book.Kernel.State.{
  Kernel, Message, Flags, sending, receiving, runnable, blocked, in_senders, ipc_deny, current_task,
  idle_task,
}
use microkernel_book.Kernel.Monad.{Outcome, done, panic, waiting, and_then, pure, set_task, ◌>>=◌}
use microkernel_book.Kernel.Queues.{push_senders}
use microkernel_book.Kernel.Sched.{task_block, task_switch}
use microkernel_book.Kernel.Ipc.{switched, wait_to_send, wait_to_recv}
use microkernel_book.Kernel.Invariant.{Ensures, QueuesInv, Inv}
use microkernel_book.Kernel.Invariant.Switch.{task_switch-Inv}
use microkernel_book.Kernel.Invariant.Resume.{Calling}

Ensures-then :
    (o : Outcome (Unit {0}))
    → Ensures (λ _ k. Inv k) o
    → Ensures (λ _ k. Inv k) (and_then o (λ _. pure switched))
Ensures-then (done _ k) h = h
Ensures-then panic h = h
Ensures-then waiting h = h

-- The caller at the end of the queue of `dst`, blocked, with what it is about to send.
abbrev joined : Kernel → ℕ → Message → Flags → ℕ → ℕ → Kernel
joined k dst copied_m flags src buffer =
    set_task (current_task k) (λ x. record x { stack = sending dst copied_m flags src buffer })
      (set_task (current_task k) (λ x. record x { state = blocked })
        (set_task (current_task k) (λ x. record x { waitqueue_next = in_senders dst })
          (set_task dst (λ x. record x { senders = x.senders ++ current_task k ∷ [] }) k)))

module _ (k : Kernel) (c : Calling k) where
  open c use {inv, runs, in_call}
  open inv use {queues as v, current_unlinked}

  -- The caller takes no message, and stands in no queue.
  caller_denies : (k.tasks (current_task k)).wait_for ≡ ipc_deny
  caller_denies = v.denies (current_task k) runs (rw in_call)

  pub caller-not-sending : (d : ℕ) → has (current_task k) (k.tasks d).senders ≡ false
  caller-not-sending d = ground (arith, v.in_send d (current_task k), runs)

  pub caller-ne-idle : current_task k ≢ idle_task k
  caller-ne-idle e = ground (arith, v.idle_blocked, runs)

  joined-QueuesInv :
      (dst : ℕ) (m : Message) (flags : Flags) (src buffer : ℕ)
      → dst ≢ current_task k
      → has dst (k.tasks (current_task k)).senders ≡ false
      → QueuesInv (joined k dst m flags src buffer)
  joined-QueuesInv dst m flags src buffer o away = record {
    run_distinct = v.run_distinct;
    in_run = λ u h. ground (arith, v.in_run u, current_unlinked);
    run_in = λ u h. ground (arith, v.run_in u);
    send_distinct = λ d. ground (
      arith,
      v.send_distinct d,
      append-Distinct (current_task k) (k.tasks d).senders,
      caller-not-sending d,
    );
    in_send = λ d u h. ground (
      arith,
      v.in_send d u,
      has-append u (k.tasks d).senders (current_task k ∷ []),
      caller_denies,
      v.users (current_task k),
      runs,
      caller-not-sending d,
    );
    send_in = λ d u h.
        ground (arith, v.send_in d u, has-append u (k.tasks d).senders (current_task k ∷ []));
    sending_in = λ d u h s.
        ground (arith, v.sending_in d u, has-append u (k.tasks d).senders (current_task k ∷ []));
    admitted = λ s r h i. ground (arith, v.admitted s r, runs);
    denies = λ u h i. ground (arith, v.denies u);
    waits = λ u h i. ground (arith, v.waits u, caller_denies);
    no_mutual = λ a d h i j l. ground (arith, v.no_mutual a d, v.sending_in (current_task k) dst);
    users = λ u h. ground (arith, v.users u);
    idle_blocked = ground (arith, v.idle_blocked);
    idle_denies = ground (arith, v.idle_denies);
    idle_unlinked = ground (arith, v.idle_unlinked, caller-ne-idle);
    idle_running = ground (arith, v.idle_running, caller-ne-idle);
  }

  wait_to_send-joined :
      (dst : ℕ) (m : Message) (flags : Flags) (src buffer : ℕ)
      → wait_to_send dst m flags src buffer k
        ≡ (task_switch >>= λ _. pure switched) (joined k dst m flags src buffer)
  unfolding wait_to_send push_senders task_block
  wait_to_send-joined dst m flags src buffer =
      ground (arith, caller-not-sending dst, caller-ne-idle, current_unlinked, runs)

  -- A sender that has to wait joins the queue, and the invariant holds for the task that runs next.
  pub wait_to_send-Inv :
      (dst : ℕ) (m : Message) (flags : Flags) (src buffer : ℕ)
      → dst ≢ current_task k
      → has dst (k.tasks (current_task k)).senders ≡ false
      → Ensures (λ _ k'. Inv k') (wait_to_send dst m flags src buffer k)
  wait_to_send-Inv dst m flags src buffer o away = rw (wait_to_send-joined dst m flags src buffer) (
      Ensures-then (task_switch (joined k dst m flags src buffer)) (
        task_switch-Inv (joined k dst m flags src buffer)
          (joined-QueuesInv dst m flags src buffer o away) (inl (ground arith))))

-- The caller blocked in a receive.
abbrev pub awaiting : Kernel → ℕ → ℕ → Flags → ℕ → Kernel
awaiting k c src flags buffer =
    set_task c (λ x. record x { stack = receiving flags buffer })
      (set_task c (λ x. record x { state = blocked })
        (set_task c (λ x. record x { wait_for = src }) k))

module _ (k : Kernel) (call : Calling k) (flags : Flags) (buffer : ℕ) where
  open call use {inv, runs, in_call}
  open inv use {queues as v, current_unlinked}

  pub awaiting-QueuesInv : (src : ℕ) → QueuesInv (awaiting k (current_task k) src flags buffer)
  awaiting-QueuesInv src = record {
    run_distinct = v.run_distinct;
    in_run = λ u h. ground (arith, v.in_run u, current_unlinked);
    run_in = λ u h. ground (arith, v.run_in u);
    send_distinct = λ d. ground (arith, v.send_distinct d);
    in_send = λ d u h. ground (arith, v.in_send d u, caller-not-sending k call d);
    send_in = λ d u h. ground (arith, v.send_in d u);
    sending_in = λ d u h s. ground (arith, v.sending_in d u);
    admitted = λ s r h i. ground (arith, v.admitted s r, runs);
    denies = λ u h i. ground (arith, v.denies u);
    waits = λ u h i. ground (arith, v.waits u);
    no_mutual = λ a d h i j l. ground (arith, v.no_mutual a d);
    users = λ u h. ground (arith, v.users u);
    idle_blocked = ground (arith, v.idle_blocked);
    idle_denies = ground (arith, v.idle_denies, caller-ne-idle k call);
    idle_unlinked = ground (arith, v.idle_unlinked);
    idle_running = ground (arith, v.idle_running, caller-ne-idle k call);
  }

wait_to_recv-awaiting :
    (k : Kernel) (c src : ℕ) (flags : Flags) (buffer : ℕ)
    → c ≢ idle_task k
    → (k.tasks c).state ≡ runnable
    → wait_to_recv c src flags buffer k
      ≡ (task_switch >>= λ _. pure switched) (awaiting k c src flags buffer)
unfolding wait_to_recv task_block
wait_to_recv-awaiting k c src flags buffer n r = ground arith

-- A receiver whose queues are in order once it is blocked gives the CPU away.
pub wait_to_recv-Inv :
    (k : Kernel) (c src : ℕ) (flags : Flags) (buffer : ℕ)
    → current_task k ≡ c
    → c ≢ idle_task k
    → (k.tasks c).state ≡ runnable
    → QueuesInv (awaiting k c src flags buffer)
    → Ensures (λ _ k'. Inv k') (wait_to_recv c src flags buffer k)
wait_to_recv-Inv k c src flags buffer e n r v =
    rw (wait_to_recv-awaiting k c src flags buffer n r) (
      Ensures-then (task_switch (awaiting k c src flags buffer))
        (task_switch-Inv (awaiting k c src flags buffer) v (inl (ground arith))))
