-- ===== src/Kernel/Invariant/Tests.antt =====
-- A machine with two tasks, the first of which runs, and the theorems there.
use microkernel_book.Base.{refl, inr, true, false, none, [], ◌∷◌, arith, update}
use microkernel_book.Kernel.State.{
  Kernel, Task, Message, Flags, runnable, blocked, unused, unlinked, in_runqueue, running,
  receiving, ipc_deny,
}
use microkernel_book.Kernel.Ipc.{Buffer, ipc, resume}
use microkernel_book.Kernel.Invariant.{Ensures, QueuesInv, Inv}
use microkernel_book.Kernel.Invariant.Resume.{Calling}
use microkernel_book.Kernel.Invariant.Calls.{ipc-Inv, resume-Inv}

abbrev pub no_message : Message
no_message = record { kind = 0; src = 0; words = λ _. 0 }

-- A slot of the array that is not used; the idle task looks the same, but is blocked.
abbrev pub empty_slot : Task
empty_slot = record {
  tid = 0;
  name = [];
  state = unused;
  destroyed = false;
  pager = none;
  timeout = 0;
  ref_count = 0;
  quantum = 0;
  waitqueue_next = unlinked;
  is_active = false;
  senders = [];
  wait_for = ipc_deny;
  pages = [];
  notifications = 0;
  m = no_message;
  stack = running;
}

abbrev pub idle : Task
idle = record empty_slot { state = blocked }

abbrev pub first : Task
first = record empty_slot { tid = 1; state = runnable }

abbrev second : Task
second = record empty_slot { tid = 2; state = runnable; waitqueue_next = in_runqueue }

abbrev pub machine : Kernel
machine = record {
  tasks = update (update (update (λ _. empty_slot) 17 idle) 1 first) 2 second;
  runqueue = 2 ∷ [];
  active_tasks = 1 ∷ 2 ∷ [];
  cpu = 0;
  current_of = λ _. 1;
  zones = [];
  bytes = λ _. 0;
  irq_listeners = λ _. none;
  uptime_ticks = 0;
}

pub machine-QueuesInv : QueuesInv machine
machine-QueuesInv = record {
  run_distinct = (refl, tt);
  in_run = λ t h. ground arith;
  run_in = λ t h. ground arith;
  send_distinct = λ d. ground arith;
  in_send = λ d t h. ground arith;
  send_in = λ d t h. ground arith;
  sending_in = λ d t b s. ground arith;
  admitted = λ s r a b. ground arith;
  denies = λ t a b. ground arith;
  waits = λ t a b. ground arith;
  no_mutual = λ a d h i j l. ground arith;
  users = λ t h. ground arith;
  idle_blocked = refl;
  idle_denies = refl;
  idle_unlinked = refl;
  idle_running = refl;
}

pub machine-Inv : Inv machine
machine-Inv = record {
  queues = machine-QueuesInv;
  current_unlinked = refl;
  current_runs = inr refl;
}

machine-Calling : Calling machine
machine-Calling = record { inv = machine-Inv; runs = refl; in_call = refl }

abbrev call_flags : Flags
call_flags = record { send = true; recv = true; noblock = false; kernel = false }

abbrev buffer : Buffer
buffer = record { address = 0x1000; content = record no_message { kind = 7 } }

-- Task 1 calls task 2.
ipc-Inv_example : Ensures (λ _ k'. Inv k') (ipc no_message 2 2 buffer call_flags machine)
ipc-Inv_example =
    ipc-Inv no_message machine 2 2 buffer call_flags machine-Calling
      (λ _. (omega arith, omega arith, refl))

-- Task 2 runs behind the `task_switch()` of its receive, with a message from task 1.
abbrev received : Message
received = record no_message { kind = 7; src = 1 }

abbrev receiver : Task
receiver = record empty_slot {
  tid = 2;
  state = runnable;
  wait_for = 1;
  m = received;
  stack = receiving call_flags 0x1000;
}

abbrev woken : Kernel
woken = record machine {
  tasks =
      update
        (update (update (λ _. empty_slot) 17 idle) 1
          (record first { waitqueue_next = in_runqueue }))
        2 receiver;
  runqueue = 1 ∷ [];
  current_of = λ _. 2;
}

woken-QueuesInv : QueuesInv woken
woken-QueuesInv = record {
  run_distinct = (refl, tt);
  in_run = λ t h. ground arith;
  run_in = λ t h. ground arith;
  send_distinct = λ d. ground arith;
  in_send = λ d t h. ground arith;
  send_in = λ d t h. ground arith;
  sending_in = λ d t b s. ground arith;
  admitted = λ s r a b. ground arith;
  denies = λ t a b. ground arith;
  waits = λ t a b. ground arith;
  no_mutual = λ a d h i j l. ground arith;
  users = λ t h. ground arith;
  idle_blocked = refl;
  idle_denies = refl;
  idle_unlinked = refl;
  idle_running = refl;
}

woken-Inv : Inv woken
woken-Inv = record { queues = woken-QueuesInv; current_unlinked = refl; current_runs = inr refl }

resume-Inv_example : Ensures (λ _ k'. Inv k') (resume no_message woken)
resume-Inv_example = resume-Inv no_message woken woken-Inv refl (λ e. ground arith)
