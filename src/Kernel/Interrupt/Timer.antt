-- ===== src/Kernel/Interrupt/Timer.antt =====
-- `handle_timer_interrupt` of kernel/interrupt.c and the invariant.
use microkernel_book.Base.{ℕ, ◌≡◌}
use microkernel_book.Kernel.State.{Kernel}
use microkernel_book.Kernel.Monad.{Outcome}
use microkernel_book.Kernel.Invariant.{Ensures, Inv}

-- A step that keeps the invariant and the task IDs.
abbrev SameIds : Kernel → Kernel → Type 0
SameIds k k' = (u : ℕ) → (k'.tasks u).tid ≡ (k.tasks u).tid

abbrev Keeps : Kernel → Outcome (Unit {0}) → Type 0
Keeps k = Ensures (λ _ k'. Inv k' × SameIds k k')
