-- ===== src/Kernel/Syscall/Messages.antt =====
-- kernel/syscall.c: the system calls that pass messages, and those that only read or set a value.
use microkernel_book.Base.{
  ℕ, ◌≤◌, ◌<◌, ◌≡◌, ◌≢◌, ◌⊎◌, inl, inr, refl, arith, true, ◌||◌, Bool-cases, Option, none, some,
  List, [], ◌∷◌, has, leb, ltb,
}
use microkernel_book.Kernel.State.{Kernel, unused, num_tasks_max, current_task}
use microkernel_book.Kernel.Monad.{M}
use microkernel_book.Kernel.Sched.{task_find}
use microkernel_book.Kernel.Notify.{notify}
use microkernel_book.Kernel.Ipc.{ipc}
use microkernel_book.Kernel.Ids.{task_find_lem}
use microkernel_book.Kernel.Invariant.{Ensures, then-Ensures, Inv, IsUser}
use microkernel_book.Kernel.Invariant.Resume.{Calling, set_task-Inv, notify-Inv}
use microkernel_book.Kernel.Invariant.Calls.{ipc-Inv}
use microkernel_book.Kernel.Syscall.{
  Machine, Return, with_task, has_others, destination, ipc_flags, sys_ipc, sys_notify, sys_time,
  sys_serial_write, sys_serial_read, sys_task_self, sys_uptime, handle_syscall,
}

-- A slot in use that `task_find` can give holds its own ID.
abbrev pub Named : Kernel → Type 0
Named k = (t : ℕ) → t < num_tasks_max → (k.tasks t).state ≢ unused → (k.tasks t).tid ≡ t

abbrev KeepsInv : {A : Type 0} → M A → Kernel → Type 0
KeepsInv m k = Ensures (λ _ k'. Inv k') (m k)

found-IsUser : (k : Kernel) (tid t : ℕ) → Named k → tid ≢ 0 → task_find k tid ≡ some t → IsUser k t
found-IsUser k tid t named nonzero e =
    let (same, below, used) = (task_find_lem k tid t).0 e in
    rw same (ground (arith, nonzero), omega (arith, below), named tid below used)

with_task-KeepsInv :
    (o : Option ℕ) (failed : Return) (f : ℕ → M Return) (k : Kernel)
    → Inv k
    → ((t : ℕ) → o ≡ some t → KeepsInv (f t) k)
    → KeepsInv (with_task o failed f) k
with_task-KeepsInv none failed f k v h = v
with_task-KeepsInv (some t) failed f k v h = h t refl

destination-IsUser :
    (k : Kernel) (dst flags t : ℕ)
    → Named k
    → dst ≢ 0
    → destination k dst flags ≡ some t
    → (ipc_flags flags).send ≡ true
    → IsUser k t
destination-IsUser k dst flags t named nonzero e sends =
    found-IsUser k dst t named nonzero (rw sends at e)

sys_ipc-KeepsInv :
    (machine : Machine) (k : Kernel) (dst src m flags : ℕ)
    → Calling k
    → Named k
    → dst ≢ 0
    → KeepsInv (sys_ipc machine dst src m flags) k
unfolding sys_ipc
sys_ipc-KeepsInv machine k dst src m flags c named nonzero =
    elim (Bool-cases (has_others flags 0x7_0000)) [
      | inl others ↦ rw others c.inv
      | inr known ↦ elim (Bool-cases (leb 0x8000_0000 src || ltb num_tasks_max src)) [
        | inl bad ↦ rw (known, bad) c.inv
        | inr good ↦
            rw (known, good)
              (with_task-KeepsInv (destination k dst flags) _ _ k c.inv λ t e.
                then-Ensures (λ _ k'. Inv k') (λ _ k'. Inv k')
                  (ipc machine.scratch t src _ (ipc_flags flags) k) _
                  (ipc-Inv machine.scratch k t src _ (ipc_flags flags) c
                    (destination-IsUser k dst flags t named nonzero e))
                  λ a k' v. v)
      ]
    ]

sys_notify-KeepsInv :
    (k : Kernel) (dst n : ℕ) → Inv k → Named k → dst ≢ 0 → KeepsInv (sys_notify dst n) k
unfolding sys_notify
sys_notify-KeepsInv k dst n v named nonzero = with_task-KeepsInv (task_find k dst) _ _ k v λ t e.
    then-Ensures (λ _ k'. Inv k') (λ _ k'. Inv k') (notify t n k) _
      (notify-Inv k t n v (found-IsUser k dst t named nonzero e)) λ a k' w. w

sys_time-KeepsInv : (k : Kernel) (timeout : ℕ) → Inv k → KeepsInv (sys_time timeout) k
unfolding sys_time
sys_time-KeepsInv k timeout v = elim (Bool-cases (leb 0x8000_0000 timeout)) [
  | inl negative ↦ rw negative v
  | inr good ↦ rw good (
      set_task-Inv k (current_task k) (λ t. record t { timeout = timeout })
        (refl, refl, refl, refl, refl, refl) v)
]

-- SYS_IPC, SYS_NOTIFY, the calls on the serial port, SYS_TASK_EXIT, SYS_TASK_SELF, SYS_TIME,
-- SYS_UPTIME and SYS_SHUTDOWN.
abbrev pub plain_calls : List ℕ
plain_calls = 1 ∷ 2 ∷ 3 ∷ 4 ∷ 7 ∷ 8 ∷ 14 ∷ 15 ∷ 17 ∷ []

plain_cases :
    (n : ℕ)
    → has n plain_calls ≡ true
    → (n ≡ 1) ⊎ (n ≡ 2) ⊎ (n ≡ 3) ⊎ (n ≡ 4) ⊎ (n ≡ 7) ⊎ (n ≡ 8) ⊎ (n ≡ 14) ⊎ (n ≡ 15) ⊎ (n ≡ 17)
plain_cases n h = ground arith

-- A system call that passes messages, notifies, uses the serial port, exits, shuts down, sets a
-- timeout or reads the clock or the caller's ID (SYS_IPC, SYS_NOTIFY, SYS_SERIAL_WRITE,
-- SYS_SERIAL_READ, SYS_TASK_EXIT, SYS_TASK_SELF, SYS_TIME, SYS_UPTIME and SYS_SHUTDOWN), by the
-- running task at the start of a call, where the slots in use hold their own IDs, with any
-- arguments but task 0 as the destination of the first two: it keeps the invariant of the queues
-- and fails no assertion, up to the place where it leaves the file.
pub handle_syscall-Inv :
    (fuel : ℕ) (machine : Machine) (k : Kernel) (a0 a1 a2 a3 a4 n : ℕ)
    → Calling k
    → Named k
    → has n plain_calls ≡ true
    → (n ≤ 2 → a0 ≢ 0)
    → Ensures (λ _ k'. Inv k') (handle_syscall fuel machine a0 a1 a2 a3 a4 n k)
unfolding handle_syscall sys_serial_write sys_serial_read sys_task_self sys_uptime
handle_syscall-Inv fuel machine k a0 a1 a2 a3 a4 n c named plain nonzero =
    elim (plain_cases n plain) [
      | inl e ↦ rw e (sys_ipc-KeepsInv machine k a0 a1 a2 a3 c named (nonzero (omega (arith, e))))
      | inr (inl e) ↦ rw e (sys_notify-KeepsInv k a0 a1 c.inv named (nonzero (omega (arith, e))))
      | inr (inr (inl e)) ↦ rw e c.inv
      | inr (inr (inr (inl e))) ↦ rw e c.inv
      | inr (inr (inr (inr (inl e)))) ↦ rw e c.inv
      | inr (inr (inr (inr (inr (inl e))))) ↦ rw e c.inv
      | inr (inr (inr (inr (inr (inr (inl e)))))) ↦ rw e (sys_time-KeepsInv k a0 c.inv)
      | inr (inr (inr (inr (inr (inr (inr (inl e))))))) ↦ rw e c.inv
      | inr (inr (inr (inr (inr (inr (inr (inr e))))))) ↦ rw e c.inv
    ]
