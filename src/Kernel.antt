-- ===== src/Kernel.antt =====
-- kernel/: the kernel's components over one state.
pub mod State
pub mod Monad
pub mod Queues
pub mod Sched
pub mod Ids
pub mod Notify
pub mod Ipc
pub mod Invariant
pub mod Memory
pub mod Interrupt
pub mod Task
pub mod PageTable
pub mod Syscall
