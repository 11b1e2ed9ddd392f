-- ===== src/Kernel/Invariant/Calls.antt =====
-- `ipc` of kernel/ipc.c, its second half, and the invariant.
use microkernel_book.Base.{
  ℕ, ◌≡◌, ◌≢◌, refl, Bool, true, false, not, ◌&&◌, Option, none, some, List, [], ◌∷◌, arith, ◌==◌,
  has, if◌then◌else◌, bit_and, ◌-◌,
}
use microkernel_book.Kernel.State.{
  Kernel, Message, Flags, Result, ok, err, running, sending, receiving, Context, idle_task, ipc_any,
  ipc_deny, current_task, runnable, notify_aborted,
}
use microkernel_book.Kernel.Monad.{M, pure, Outcome, and_then, set_task}
use microkernel_book.Kernel.Ipc.{
  Buffer, Ipc, finished, find_sender, admit_sender, recv_message, then_recv, send_copied,
  send_message, ipc, is_ready, waits_to_send, copy_in, deliver, resume, resume_at, resume_send,
  resume_recv, wait_to_recv,
}
use microkernel_book.Kernel.Invariant.{Ensures, Inv, IsUser, WaitsFor, is_receiving}
use microkernel_book.Kernel.Invariant.Resume.{
  Calling, set_task-Inv, deliver-delivered, delivered, delivered-Calling,
}
use microkernel_book.Kernel.Invariant.Block.{
  wait_to_send-Inv, awaiting-QueuesInv, wait_to_recv-Inv, caller-ne-idle,
}
use microkernel_book.Kernel.Invariant.Admit.{
  let_in, let_in-QueuesInv, admit_sender-let_in, sender-ne-caller,
}

abbrev InvAfter : {A : Type 0} → Outcome A → Type 0
InvAfter = Ensures (λ _ k'. Inv k')

-- The rule for a branch of kernel code.
by_test :
    {A : Type 0} (b : Bool) (x y : M A) (k : Kernel)
    → (b ≡ true → InvAfter (x k))
    → (b ≡ false → InvAfter (y k))
    → InvAfter ((if b then x else y) k)
by_test true x y k p q = p refl
by_test false x y k p q = q refl

find_sender-has :
    (k : Kernel) (src s : ℕ) (ts : List ℕ) → find_sender k src ts ≡ some s → has s ts ≡ true
unfolding find_sender
find_sender-has k src s [] h = cc
find_sender-has k src s (t ∷ ts) h = ground (arith, find_sender-has k src s ts)

module _ (scratch : Message) (k : Kernel) (c : Calling k) (src buffer : ℕ) (flags : Flags) where
  -- The receiver blocks, behind a sender that it lets in, if one waits.
  block-Inv :
      (o : Option ℕ)
      → find_sender k src (k.tasks (current_task k)).senders ≡ o
      → InvAfter
          (and_then (admit_sender src o k) λ src. wait_to_recv (current_task k) src flags buffer)
  unfolding admit_sender
  block-Inv none e =
      wait_to_recv-Inv k (current_task k) src flags buffer refl (caller-ne-idle k c) c.runs
        (awaiting-QueuesInv k c flags buffer src)
  block-Inv (some s) e =
      let h = find_sender-has k src s (k.tasks (current_task k)).senders e in
      rw (admit_sender-let_in k c flags buffer s h src) (
        wait_to_recv-Inv (let_in k (current_task k) s) (current_task k) s flags buffer refl
          (caller-ne-idle k c) (ground (arith, sender-ne-caller k c flags buffer s h, c.runs))
          (let_in-QueuesInv k c flags buffer s h))

  -- `recv_message` keeps the invariant up to the switch to the next task.
  recv_message-Inv : InvAfter (recv_message scratch src buffer flags k)
  unfolding recv_message
  recv_message-Inv =
      by_test (src == ipc_any && not ((k.tasks (current_task k)).notifications == 0)) _ _ k
        (λ _.
          set_task-Inv k (current_task k) (λ t. record t { notifications = 0 })
            (refl, refl, refl, refl, refl, refl) c.inv)
        (λ _. by_test flags.noblock _ _ k (λ _. c.inv) (λ _. block-Inv _ refl))

  then_recv-Inv : (r : Result (Unit {0})) → InvAfter (then_recv scratch r src buffer flags k)
  unfolding then_recv
  then_recv-Inv (err e) = c.inv
  then_recv-Inv (ok _) = by_test flags.recv _ _ k (λ _. recv_message-Inv) (λ _. c.inv)

-- The search by task ID finds a task that stands in the queue.
waits_to_send-has :
    (k : Kernel) (dst : ℕ) (ts : List ℕ)
    → waits_to_send k (k.tasks dst).tid ts ≡ false
    → has dst ts ≡ false
unfolding waits_to_send
waits_to_send-has k dst [] h = refl
waits_to_send-has k dst (t ∷ ts) h = ground (arith, waits_to_send-has k dst ts)

module _ (scratch : Message) (k : Kernel) (c : Calling k) (dst src : ℕ) (flags : Flags)
    (i : IsUser k dst) where
  -- A message to a receiver that is ready, and what `ipc` does behind it.
  handed-Inv :
      (copied_m : Message) (buffer : ℕ)
      → is_ready (k.tasks dst) (k.tasks (current_task k)).tid ≡ true
      → InvAfter (and_then (deliver dst copied_m flags k) λ r. then_recv scratch r src buffer flags)
  handed-Inv copied_m buffer ready = rw (deliver-delivered k dst copied_m flags c i ready) (
      then_recv-Inv scratch (delivered k dst copied_m flags)
        (delivered-Calling k dst copied_m flags c i ready) src buffer flags (ok tt))

  send_copied-Inv :
      (copied_m : Message) (buffer : ℕ)
      → dst ≢ current_task k
      → InvAfter (send_copied scratch dst src buffer copied_m flags k)
  unfolding send_copied
  send_copied-Inv copied_m buffer o =
      by_test (is_ready (k.tasks dst) (k.tasks (current_task k)).tid) _ _ k
        (handed-Inv copied_m buffer)
        (λ _.
          by_test flags.noblock _ _ k (λ _. c.inv)
            (λ _.
              by_test (waits_to_send k (k.tasks dst).tid (k.tasks (current_task k)).senders) _ _ k
                (λ _. c.inv)
                (λ e.
                  wait_to_send-Inv k c dst copied_m flags src buffer o
                    (waits_to_send-has k dst (k.tasks (current_task k)).senders e))))

  send_message-Inv : (m : Buffer) → InvAfter (send_message scratch dst src m flags k)
  unfolding send_message
  send_message-Inv m =
      by_test (dst == current_task k) _ _ k (λ _. c.inv)
        (λ e. copied (ground (arith, e)) (copy_in m flags))
    where
      copied :
          dst ≢ current_task k
          → (r : Result Message)
          → InvAfter (
              (elim r as (λ _. M Ipc) [
                | ok copied_m ↦ send_copied scratch dst src m.address copied_m flags
                | err e ↦ pure (finished (err e))
              ])
                k)
      copied o (ok copied_m) = send_copied-Inv copied_m m.address o
      copied o (err e) = c.inv

-- `ipc` by the running task, at the start of a call and with a destination that is a slot of
-- `tasks` if it sends, keeps the invariant of the scheduler's and the senders' queues and fails no
-- assertion, on every branch: hand-over, wait, dead lock, a would-be block, invalid buffers,
-- notifications and receives.
pub ipc-Inv :
    (scratch : Message) (k : Kernel) (dst src : ℕ) (m : Buffer) (flags : Flags)
    → Calling k
    → (flags.send ≡ true → IsUser k dst)
    → InvAfter (ipc scratch dst src m flags k)
unfolding ipc
ipc-Inv scratch k dst src m flags c i =
    by_test flags.send _ _ k (λ on. send_message-Inv scratch k c dst src flags (i on) m)
      (λ _. then_recv-Inv scratch k c src m.address flags (ok tt))

-- The task that was switched to, with its stack unwound.
abbrev unwound : Kernel → Kernel
unwound k = set_task (current_task k) (λ t. record t { stack = running }) k

module _ (k : Kernel) (v : Inv k) (runs : (k.tasks (current_task k)).state ≡ runnable) where
  open v use {queues}

  current-ne-idle : current_task k ≢ idle_task k
  current-ne-idle e = ground (arith, queues.idle_blocked, runs)

  -- The running task's stack is unwound, and it takes no messages; nothing else changes.
  unwinds-Inv :
      (k' : Kernel)
      → k'.runqueue ≡ k.runqueue
      → k'.cpu ≡ k.cpu
      → current_task k' ≡ current_task k
      → ((u : ℕ)
          → ((k'.tasks u).state ≡ (k.tasks u).state)
            × ((k'.tasks u).tid ≡ (k.tasks u).tid)
            × ((k'.tasks u).waitqueue_next ≡ (k.tasks u).waitqueue_next)
            × ((k'.tasks u).senders ≡ (k.tasks u).senders))
      → ((u : ℕ)
          → u ≢ current_task k
          → ((k'.tasks u).wait_for ≡ (k.tasks u).wait_for)
            × ((k'.tasks u).stack ≡ (k.tasks u).stack))
      → (k'.tasks (current_task k)).wait_for ≡ ipc_deny
      → (k'.tasks (current_task k)).stack ≡ running
      → Inv k'
  unwinds-Inv k' q p c s o d r = record {
    queues = record {
      run_distinct = rw q queues.run_distinct;
      in_run = λ u h. ground (arith, queues.in_run u, q, s u);
      run_in = λ u h. ground (arith, queues.run_in u, q, s u);
      send_distinct = λ t. rw (s t).3 (queues.send_distinct t);
      in_send = λ t u h. ground (arith, queues.in_send t u, s t, s u, o u, runs);
      send_in = λ t u h. ground (arith, queues.send_in t u, s t, s u);
      sending_in = λ t u h i. ground (arith, queues.sending_in t u, s t, s u, o u, runs);
      admitted = λ t u h i. ground (arith, queues.admitted t u, s t, s u, o t, o u, runs, r);
      denies = λ u h i. ground (arith, queues.denies u, s u, o u, d);
      waits = λ u h i. ground (arith, queues.waits u, s u, o u, d);
      no_mutual = λ a d h i j l. ground (arith, queues.no_mutual a d, s a, s d, o a, o d, runs);
      users = λ u h. ground (arith, queues.users u, s u);
      idle_blocked = ground (arith, queues.idle_blocked, p, s (idle_task k));
      idle_denies = ground (arith, queues.idle_denies, p, o (idle_task k), current-ne-idle);
      idle_unlinked = ground (arith, queues.idle_unlinked, p, s (idle_task k));
      idle_running = ground (arith, queues.idle_running, p, o (idle_task k), current-ne-idle);
    };
    current_unlinked = ground (arith, v.current_unlinked, c, s (current_task k));
    current_runs = ground (arith, c, s (current_task k), runs);
  }

  unwound-Calling : is_receiving (k.tasks (current_task k)).stack ≡ false → Calling (unwound k)
  unwound-Calling r = record {
    inv =
        unwinds-Inv (unwound k) refl refl refl (λ u. ground arith) (λ u n. ground arith)
          (ground (arith, queues.denies (current_task k) runs r)) (ground arith);
    runs = ground (arith, runs);
    in_call = ground arith;
  }

  -- The receiver with its message, back in user mode.
  received-Inv : Inv (set_task (current_task k) (λ t. record t { wait_for = ipc_deny }) (unwound k))
  received-Inv =
      unwinds-Inv _ refl refl refl (λ u. ground arith) (λ u n. ground arith) (ground arith)
        (ground arith)

  resume_at-Inv :
      (scratch : Message) (s : Context)
      → (k.tasks (current_task k)).stack ≡ s
      → s ≢ running
      → InvAfter (resume_at scratch s (unwound k))
  unfolding resume_send resume_recv
  resume_at-Inv scratch running e n = absurd (n refl)
  resume_at-Inv scratch (sending dst m flags src buffer) e n =
      let c : Calling (unwound k) = unwound-Calling (rw e) in
      let w : WaitsFor k (current_task k) dst = queues.admitted (current_task k) dst runs (rw e) in
      let n = (k.tasks (current_task k)).notifications in
      by_test (not (bit_and ((unwound k).tasks (current_task k)).notifications notify_aborted == 0))
        _ _ (unwound k)
        (λ _.
          set_task-Inv (unwound k) (current_task k)
            (λ t. record t {
              notifications =
                  bit_and ((unwound k).tasks (current_task k)).notifications
                    (0xffff_ffff - notify_aborted);
            })
            (refl, refl, refl, refl, refl, refl) c.inv)
        (λ _.
          handed-Inv scratch (unwound k) c dst src flags (ground arith) m buffer
            (ground (arith, w, queues.users (current_task k) runs)))
  resume_at-Inv scratch (receiving flags buffer) e n = received-Inv

-- The current task, runnable and switched to in the middle of `ipc`, goes on to the end of the
-- call, or to its next wait, keeps the invariant and fails no assertion.
pub resume-Inv :
    (scratch : Message) (k : Kernel)
    → Inv k
    → (k.tasks (current_task k)).state ≡ runnable
    → (k.tasks (current_task k)).stack ≢ running
    → InvAfter (resume scratch k)
unfolding resume
resume-Inv scratch k v runs n =
    resume_at-Inv k v runs scratch (k.tasks (current_task k)).stack refl n
