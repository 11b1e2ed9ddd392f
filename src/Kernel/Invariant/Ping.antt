-- ===== src/Kernel/Invariant/Ping.antt =====
-- Two tasks that talk to each other: one runs, the other waits to receive or to send.
use microkernel_book.Base.{◌≡◌, refl, inr, some, true, false, [], ◌∷◌, arith, update}
use microkernel_book.Kernel.State.{Kernel, Task, Flags, blocked, in_senders, sending, receiving, ok}
use microkernel_book.Kernel.Monad.{◌>>=◌}
use microkernel_book.Kernel.Ipc.{Buffer, finished, ipc, resume, copy_in, arch_is_mappable_uaddr}
use microkernel_book.Kernel.Sched.{task_switch}
use microkernel_book.Kernel.Invariant.{Ensures, QueuesInv}
use microkernel_book.Kernel.Invariant.Resume.{Calling}
use microkernel_book.Kernel.Invariant.Turns.{Turn, turn, task_switch-Turn}
use microkernel_book.Kernel.Invariant.Delivery.{ipc-received}
use microkernel_book.Kernel.Invariant.Tests.{
  machine, machine-QueuesInv, no_message, empty_slot, idle, first,
}

abbrev send_flags : Flags
send_flags = record { send = true; recv = false; noblock = false; kernel = false }

abbrev buffer : Buffer
buffer = record { address = 0x1000; content = record no_message { kind = 7 } }

copied : copy_in buffer send_flags ≡ ok buffer.content
unfolding copy_in arch_is_mappable_uaddr
copied = refl

-- Task 1 runs, and `other` is task 2.
abbrev beside : Task → Task → Kernel
beside one other = record machine {
  tasks = update (update (update (λ _. empty_slot) 17 idle) 1 one) 2 other;
  runqueue = [];
}

abbrev pub listening : Kernel
listening = beside first (record empty_slot {
  tid = 2;
  state = blocked;
  wait_for = 0;
  stack = receiving send_flags 0x2000;
})

abbrev pub calling : Kernel
calling =
    beside (record first { senders = 2 ∷ [] })
      (record empty_slot {
        tid = 2;
        state = blocked;
        waitqueue_next = in_senders 1;
        stack = sending 1 no_message send_flags 0 0x2000;
      })

listening-QueuesInv : QueuesInv listening
listening-QueuesInv = record {
  run_distinct = tt;
  in_run = λ t h. ground arith;
  run_in = λ t h. ground arith;
  send_distinct = λ d. ground arith;
  in_send = λ d t h. ground arith;
  send_in = λ d t h. ground arith;
  sending_in = λ d t b s. ground arith;
  admitted = λ s r a b. ground arith;
  denies = λ t a b. ground arith;
  waits = λ t a b. ground arith;
  no_mutual = λ a d h i j l. ground arith;
  users = λ t h. ground arith;
  idle_blocked = refl;
  idle_denies = refl;
  idle_unlinked = refl;
  idle_running = refl;
}

calling-QueuesInv : QueuesInv calling
calling-QueuesInv = record {
  run_distinct = tt;
  in_run = λ t h. ground arith;
  run_in = λ t h. ground arith;
  send_distinct = λ d. ground arith;
  in_send = λ d t h. ground arith;
  send_in = λ d t h. ground arith;
  sending_in = λ d t b s. ground arith;
  admitted = λ s r a b. ground arith;
  denies = λ t a b. ground arith;
  waits = λ t a b. ground arith;
  no_mutual = λ a d h i j l. ground arith;
  users = λ t h. ground arith;
  idle_blocked = refl;
  idle_denies = refl;
  idle_unlinked = refl;
  idle_running = refl;
}

pub listening-Calling : Calling listening
listening-Calling = record {
  inv = record { queues = listening-QueuesInv; current_unlinked = refl; current_runs = inr refl };
  runs = refl;
  in_call = refl;
}

pub calling-Calling : Calling calling
calling-Calling = record {
  inv = record { queues = calling-QueuesInv; current_unlinked = refl; current_runs = inr refl };
  runs = refl;
  in_call = refl;
}

ipc-received_example :
    Ensures
      (λ r _. r ≡ finished (ok (some (record buffer.content { src = 1 }))))
      ((ipc no_message 2 0 buffer send_flags >>= λ _. task_switch >>= λ _. resume no_message)
        listening)
ipc-received_example =
    ipc-received no_message listening 2 0 buffer send_flags listening-Calling send_flags 0x2000 refl
      (omega arith) copied (omega arith, omega arith, refl) refl refl refl refl

task_switch-Turn_example :
    Ensures
      (λ _ k'. Turn machine k' (turn machine machine.runqueue).0 (turn machine machine.runqueue).1)
      (task_switch machine)
task_switch-Turn_example = task_switch-Turn machine machine-QueuesInv (inr (refl, refl))
