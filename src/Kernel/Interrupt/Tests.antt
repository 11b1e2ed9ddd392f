-- ===== src/Kernel/Interrupt/Tests.antt =====
-- Interrupts on the machines of the other tests.
use microkernel_book.Base.{refl, some, arith}
use microkernel_book.Kernel.State.{Kernel}
use microkernel_book.Kernel.Notify.{notify}
use microkernel_book.Kernel.Interrupt.{set_listener}
use microkernel_book.Kernel.Invariant.{Ensures, Inv}
use microkernel_book.Kernel.Invariant.Notices.{Told, Unmoved, notify-Told}
use microkernel_book.Kernel.Invariant.Tests.{machine}
use microkernel_book.Kernel.Invariant.Ping.{listening, listening-Calling}

-- Task 2 listens to line 5.
abbrev heard : Kernel
heard = set_listener 5 (some 2) machine

notify-Told_example :
    Ensures (λ _ k'. Inv k' × Told listening k' 2 1 × Unmoved listening k' 2) (notify 2 1 listening)
notify-Told_example =
    notify-Told listening 2 1 listening-Calling.inv (omega arith, omega arith, refl)
