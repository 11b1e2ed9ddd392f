-- ===== src/Kernel/Interrupt.antt =====
-- kernel/interrupt.c: interrupt listeners, hardware interrupts and the timer.
pub mod Listeners
pub mod Timer
pub mod Tests
use microkernel_book.Base.{
  ℕ, ◌+◌, ◌-◌, ◌%◌, Bool, true, false, not, Option, none, some, List, [], ◌∷◌, ◌==◌, leb,
  if◌then◌else◌, min, update,
}
use microkernel_book.Kernel.State.{
  Kernel, Result, ok, err, invalid_arg, already_used, not_allowed, irq_max, notify_irq,
  notify_timer, u32_mod, current_task,
}
use microkernel_book.Kernel.Monad.{
  M, done, pure, ◌>>=◌, ◌>>◌, get, modify, modify_task, set_task, and_ok,
}
use microkernel_book.Kernel.Notify.{notify}
use microkernel_book.Kernel.Sched.{task_switch}

abbrev pub set_listener : ℕ → Option ℕ → Kernel → Kernel
set_listener irq listener k = record k { irq_listeners = update k.irq_listeners irq listener }

-- `listener != NULL` and `listener != task`.
abbrev pub is_some : Option ℕ → Bool
is_some none = false
is_some (some t) = true

abbrev pub is_task : Option ℕ → ℕ → Bool
is_task none task = false
is_task (some t) task = t == task

-- `arch_irq_enable` is a parameter: what it does to the kernel and whether it succeeds.
unfoldable pub irq_listen : (ℕ → M (Result (Unit {0}))) → ℕ → ℕ → M (Result (Unit {0}))
irq_listen arch_irq_enable task irq = do
  k ← get
  if leb irq_max irq
      then pure (err invalid_arg)
      else if is_some (k.irq_listeners irq)
      then pure (err already_used)
      else (do
        r ← arch_irq_enable irq
        and_ok r λ _. (do modify (set_listener irq (some task)); pure (ok tt)))

-- `arch_irq_disable` is a parameter like `arch_irq_enable`.
unfoldable pub irq_unlisten : (ℕ → M (Result (Unit {0}))) → ℕ → ℕ → M (Result (Unit {0}))
irq_unlisten arch_irq_disable task irq = do
  k ← get
  if leb irq_max irq
      then pure (err invalid_arg)
      else if not (is_task (k.irq_listeners irq) task)
      then pure (err not_allowed)
      else (do
        r ← arch_irq_disable irq
        and_ok r λ _. (do modify (set_listener irq none); pure (ok tt)))

abbrev pub notify_listener : Option ℕ → M (Unit {0})
notify_listener none = pure tt
notify_listener (some task) = notify task notify_irq

unfoldable pub handle_interrupt : ℕ → M (Unit {0})
handle_interrupt irq = do
  k ← get
  if leb irq_max irq then pure tt else notify_listener (k.irq_listeners irq)

-- The body of the loop over the active tasks.
unfoldable pub tick_task : ℕ → ℕ → M (Unit {0})
tick_task ticks t = do
  k ← get
  let timeout = (k.tasks t).timeout
  if timeout == 0 then pure tt else (do
    modify_task t (λ x. record x { timeout = timeout - min timeout ticks })
    if timeout - min timeout ticks == 0 then notify t notify_timer else pure tt)

-- `LIST_FOR_EACH (task, &active_tasks, ...)`: the body does not change the list.
unfoldable pub tick_tasks : ℕ → List ℕ → M (Unit {0})
tick_tasks ticks [] k = done tt k
tick_tasks ticks (t ∷ ts) k = (tick_task ticks t >>= λ _. tick_tasks ticks ts) k

-- The end of the handler: the current task's quantum.
unfoldable pub tick_quantum : ℕ → M (Unit {0})
tick_quantum ticks = do
  k ← get
  let current = current_task k
  let quantum = (k.tasks current).quantum
  modify_task current (λ x. record x { quantum = quantum - min ticks quantum })
  if quantum - min ticks quantum == 0 then task_switch else pure tt

unfoldable pub handle_timer_interrupt : ℕ → M (Unit {0})
handle_timer_interrupt ticks = do
  modify (λ k. record k { uptime_ticks = (k.uptime_ticks + ticks) % u32_mod })
  k ← get
  if k.cpu == 0 then tick_tasks ticks k.active_tasks else pure tt
  tick_quantum ticks
