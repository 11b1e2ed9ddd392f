-- ===== src/Kernel/Monad.antt =====
-- Kernel code as state passing. A failed assertion, PANIC or a read through NULL stops the kernel.
use microkernel_book.Base.{ℕ, Bool, true, false, update}
use microkernel_book.Kernel.State.{Kernel, Task, Result, ok, err}

pub data Outcome (A : Type 0) : Type 0 where
  done : A → Kernel → Outcome A
  panic : Outcome A
  -- A wait for another CPU used up its rounds.
  waiting : Outcome A

abbrev pub M : Type 0 → Type 0
M A = Kernel → Outcome A

abbrev pub pure : {A : Type 0} → A → M A
pure a k = done a k

module _ {A B : Type 0} where
  abbrev pub and_then : Outcome A → (A → M B) → Outcome B
  and_then (done a k) f = f a k
  and_then panic f = panic
  and_then waiting f = waiting

  infixl 5 ◌>>=◌ ◌>>◌
  abbrev pub ◌>>=◌ : M A → (A → M B) → M B
  ◌>>=◌ m f k = and_then (m k) f

  abbrev pub ◌>>◌ : M A → M B → M B
  ◌>>◌ m n k = and_then (m k) λ _. n

abbrev pub assert : Bool → M (Unit {0})
assert true k = done tt k
assert false k = panic

abbrev pub get : M Kernel
get k = done k k

abbrev pub modify : (Kernel → Kernel) → M (Unit {0})
modify f k = done tt (f k)

-- `tasks[t] = f(tasks[t])`
abbrev pub set_task : ℕ → (Task → Task) → Kernel → Kernel
set_task t f k = record k { tasks = update k.tasks t (f (k.tasks t)) }

abbrev pub modify_task : ℕ → (Task → Task) → M (Unit {0})
modify_task t f = modify (set_task t f)

-- `if (err != OK) return err;`
abbrev pub and_ok : {A B : Type 0} → Result A → (A → M (Result B)) → M (Result B)
and_ok (ok a) f = f a
and_ok (err e) f = pure (err e)
