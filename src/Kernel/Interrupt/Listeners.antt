-- ===== src/Kernel/Interrupt/Listeners.antt =====
-- `irq_listen` and `handle_interrupt` of kernel/interrupt.c: who is told of an interrupt.
use microkernel_book.Kernel.State.{Kernel}
