-- ===== src/Kernel/Task/Tests.antt =====
-- Tasks destroyed on the machines of the other tests.
use microkernel_book.Kernel.State.{Kernel}
use microkernel_book.Kernel.Task.{abort_senders}
use microkernel_book.Kernel.Task.Destroy.{Asleep, abort_senders-Asleep}
use microkernel_book.Kernel.Invariant.{Ensures}
use microkernel_book.Kernel.Invariant.Ping.{listening, calling, calling-Calling}

abbrev first_waits : Kernel
first_waits = record listening { current_of = λ _. 2 }

abort_senders-Asleep_example :
    Ensures (λ _ k'. Asleep calling k') (abort_senders (calling.tasks 1).senders calling)
abort_senders-Asleep_example = abort_senders-Asleep calling 1 calling-Calling.inv
