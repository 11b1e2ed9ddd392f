-- ===== src/Kernel/Syscall.antt =====
-- kernel/syscall.c: the system calls. Arguments are 32-bit words. A call ends with a value, or at the
-- place where it leaves for the scheduler, the end of the task, the console or the machine.
pub mod Rights
pub mod Messages
pub mod Tests
use microkernel_book.Base.{
  ℕ, zero, suc, ◌+◌, ◌-◌, ◌*◌, ◌/◌, ◌%◌, ◌^◌, min, Bool, true, false, not, ◌&&◌, ◌||◌, Option, none,
  some, List, [], ◌∷◌, ◌++◌, ◌==◌, ltb, leb, if◌then◌else◌, has, bit_and, bit_or,
}
use microkernel_book.Kernel.State.{
  Kernel, Message, Flags, Result, ok, err, invalid_arg, invalid_task, invalid_uaddr, no_memory,
  page_size, num_tasks_max, task_name_len, current_task,
}
use microkernel_book.Kernel.Monad.{M, pure, ◌>>=◌, ◌>>◌, get, modify_task}
use microkernel_book.Kernel.Sched.{task_find}
use microkernel_book.Kernel.Notify.{notify}
use microkernel_book.Kernel.Ipc.{Buffer, Ipc, finished, switched, ipc, arch_is_mappable_uaddr}
use microkernel_book.Kernel.Memory.{AllocFlags, pm_alloc, vm_map, vm_unmap, is_aligned}
use microkernel_book.Kernel.Interrupt.{irq_listen, irq_unlisten}
use microkernel_book.Hinavm.Machine.{hinavm_insts_max, exp_grace_exit}
use microkernel_book.Kernel.Task.{Arch, task_create, task_destroy, hinavm_create}

-- What riscv32/ does for the calls, the address of `hinavm_run`, and what the caller's address space
-- and the kernel's stack hold.
pub record Machine : Type 0 where
  pub arch : Arch
  pub vm_map : ℕ → ℕ → ℕ → ℕ → M (Result (Unit {0}))
  pub vm_unmap : ℕ → ℕ → M (Result (Unit {0}))
  pub irq_enable : ℕ → M (Result (Unit {0}))
  pub irq_disable : ℕ → M (Result (Unit {0}))
  pub hinavm_run : ℕ
  pub user : ℕ → ℕ
  pub user_message : ℕ → Message
  pub stack : ℕ → ℕ
  pub scratch : Message

-- How a call ends: with a value or an error; with what `ipc` returned, and the message written to
-- the caller; with a switch to another task; in `task_exit`; with bytes written to the serial port
-- and their number; in `serial_read`, whose bytes then go to `buf`; or in `arch_shutdown`.
pub data Return : Type 0 where
  value : Result ℕ → Return
  message : Result (Option Message) → Return
  switches : Return
  exits : (exception : ℕ) → Return
  writes : List ℕ → ℕ → Return
  reads : (buf : ℕ) → (max_len : ℕ) → Return
  shuts_down : Return

-- `value` of a result without a value: OK is 0.
abbrev pub status : Result (Unit {0}) → Return
status (ok _) = value (ok 0)
status (err e) = value (err e)

abbrev pub read_bytes : (ℕ → ℕ) → ℕ → ℕ → List ℕ
read_bytes bytes at zero = []
read_bytes bytes at (suc len) = bytes at ∷ read_bytes bytes (at + 1) len

unfoldable pub memcpy_from_user : (ℕ → ℕ) → ℕ → ℕ → Result (List ℕ)
unfolding arch_is_mappable_uaddr
memcpy_from_user user src len =
    if not (arch_is_mappable_uaddr src) then err invalid_uaddr else ok (read_bytes user src len)

-- The bytes before the NUL.
abbrev pub before_nul : List ℕ → List ℕ
before_nul [] = []
before_nul (zero ∷ rest) = []
before_nul (suc c ∷ rest) = suc c ∷ before_nul rest

abbrev pub terminated : Result (List ℕ) → Result (List ℕ)
terminated (err e) = err e
terminated (ok bytes) = if has 0 bytes then ok (before_nul bytes) else err invalid_arg

unfoldable pub strcpy_from_user : (ℕ → ℕ) → ℕ → ℕ → Result (List ℕ)
unfolding memcpy_from_user
strcpy_from_user user dst_len src = terminated (memcpy_from_user user src dst_len)

-- What a call does with a name and a pager that it was given.
abbrev pub with_name : Result (List ℕ) → (List ℕ → M Return) → M Return
with_name (err e) f = pure (value (err e))
with_name (ok name) f = f name

abbrev pub with_task : Option ℕ → Return → (ℕ → M Return) → M Return
with_task none failed f = pure failed
with_task (some task) failed f = f task

unfoldable pub sys_task_create : Machine → ℕ → ℕ → ℕ → M Return
unfolding strcpy_from_user
sys_task_create machine name ip pager =
    with_name (strcpy_from_user machine.user task_name_len name) λ namebuf. (do
      k ← get
      with_task (task_find k pager) (value (err invalid_arg)) λ pager_task. (do
        r ← task_create machine.arch namebuf ip (some pager_task)
        pure (value r)))

-- An instruction of the program in user memory.
abbrev pub word_at : (ℕ → ℕ) → ℕ → ℕ → ℕ
word_at user at i =
    let p = at + 4 * i in
    user p + user (p + 1) * 2 ^ 8 + user (p + 2) * 2 ^ 16 + user (p + 3) * 2 ^ 24

unfoldable pub sys_hinavm : Machine → ℕ → ℕ → ℕ → ℕ → M Return
unfolding strcpy_from_user
sys_hinavm machine name insts num_insts pager =
    with_name (strcpy_from_user machine.user task_name_len name) λ namebuf. (do
      k ← get
      with_task (task_find k pager) (value (err invalid_arg)) λ pager_task.
          if ltb hinavm_insts_max num_insts
          then pure (value (err invalid_arg))
          else if not (arch_is_mappable_uaddr insts)
          then pure (value (err invalid_uaddr))
          else (do
            r ←
                hinavm_create machine.arch machine.hinavm_run namebuf (word_at machine.user insts)
                  num_insts (some pager_task)
            pure (value r)))

-- `fuel` bounds the wait of `task_destroy`.
unfoldable pub sys_task_destroy : ℕ → Machine → ℕ → M Return
sys_task_destroy fuel machine tid = do
  k ← get
  with_task (task_find k tid) (value (err invalid_task)) λ task.
      if task == current_task k
      then pure (value (err invalid_task))
      else (do r ← task_destroy fuel machine.arch task; pure (status r))

unfoldable pub sys_task_self : M Return
sys_task_self = do k ← get; pure (value (ok (k.tasks (current_task k)).tid))

-- Whether a word has bits outside of a mask: `(flags & ~mask) != 0`.
abbrev pub has_others : ℕ → ℕ → Bool
has_others flags mask = not (bit_and flags (0xffff_ffff - mask) == 0)

abbrev pub is_pager : Option ℕ → ℕ → Bool
is_pager none t = false
is_pager (some p) t = p == t

-- The frame number of what `pm_alloc` gave; 0 says that there is no memory.
abbrev pub frame_of : ℕ → Result ℕ
frame_of zero = err no_memory
frame_of (suc p) = ok (suc p / page_size)

unfoldable pub sys_pm_alloc : ℕ → ℕ → ℕ → M Return
sys_pm_alloc tid size flags = if has_others flags 3 then pure (value (err invalid_arg)) else (do
  k ← get
  with_task (task_find k tid) (value (err invalid_task)) λ task.
      if not (task == current_task k) && not (is_pager (k.tasks task).pager (current_task k))
      then pure (value (err invalid_task))
      else (do
        paddr ←
            pm_alloc size (some task)
              (record { zeroed = true; aligned = not (bit_and flags 2 == 0) })
        pure (value (frame_of paddr))))

-- PAGE_READABLE, PAGE_WRITABLE and PAGE_EXECUTABLE, and PAGE_USER.
abbrev pub page_rwx : ℕ
page_rwx = 14

abbrev pub page_user : ℕ
page_user = 16

unfoldable pub sys_vm_map : (ℕ → ℕ → ℕ → ℕ → M (Result (Unit {0}))) → ℕ → ℕ → ℕ → ℕ → M Return
unfolding arch_is_mappable_uaddr is_aligned
sys_vm_map arch_vm_map tid uaddr paddr attrs = do
  k ← get
  with_task (task_find k tid) (value (err invalid_task)) λ task.
      if has_others attrs page_rwx
      then pure (value (err invalid_arg))
      else if not (is_aligned uaddr page_size) || not (is_aligned paddr page_size)
      then pure (value (err invalid_arg))
      else if not (arch_is_mappable_uaddr uaddr)
      then pure (value (err invalid_uaddr))
      else (do r ← vm_map arch_vm_map task uaddr paddr (bit_or attrs page_user); pure (status r))

unfoldable pub sys_vm_unmap : (ℕ → ℕ → M (Result (Unit {0}))) → ℕ → ℕ → M Return
unfolding arch_is_mappable_uaddr is_aligned
sys_vm_unmap arch_vm_unmap tid uaddr = do
  k ← get
  with_task (task_find k tid) (value (err invalid_task)) λ task.
      if not (is_aligned uaddr page_size)
      then pure (value (err invalid_arg))
      else if not (arch_is_mappable_uaddr uaddr)
      then pure (value (err invalid_uaddr))
      else (do r ← vm_unmap arch_vm_unmap task uaddr; pure (status r))

-- The bits IPC_SEND, IPC_RECV and IPC_NOBLOCK; IPC_KERNEL is refused before.
abbrev pub ipc_flags : ℕ → Flags
ipc_flags flags = record {
  send = not (bit_and flags (2 ^ 16) == 0);
  recv = not (bit_and flags (2 ^ 17) == 0);
  noblock = not (bit_and flags (2 ^ 18) == 0);
  kernel = false;
}

abbrev pub ipc_return : Ipc → Return
ipc_return (finished r) = message r
ipc_return switched = switches

-- The destination, looked up if the call sends; NULL is 0 and is not used.
abbrev pub destination : Kernel → ℕ → ℕ → Option ℕ
destination k dst flags = if (ipc_flags flags).send then task_find k dst else some 0

unfoldable pub sys_ipc : Machine → ℕ → ℕ → ℕ → ℕ → M Return
sys_ipc machine dst src m flags =
    if has_others flags 0x7_0000
    then pure (value (err invalid_arg))
    else if leb 0x8000_0000 src || ltb num_tasks_max src
    then pure (value (err invalid_arg))
    else (do
      k ← get
      with_task (destination k dst flags) (value (err invalid_task)) λ dst_task. (do
        r ←
            ipc machine.scratch dst_task src
              (record { address = m; content = machine.user_message m }) (ipc_flags flags)
        pure (ipc_return r)))

unfoldable pub sys_notify : ℕ → ℕ → M Return
sys_notify dst notifications = do
  k ← get
  with_task (task_find k dst) (value (err invalid_task))
      λ dst_task. (do notify dst_task notifications; pure (value (ok 0)))

unfoldable pub sys_irq_listen : Machine → ℕ → M Return
sys_irq_listen machine irq = do
  k ← get
  r ← irq_listen machine.irq_enable (current_task k) irq
  pure (status r)

unfoldable pub sys_irq_unlisten : Machine → ℕ → M Return
sys_irq_unlisten machine irq = do
  k ← get
  r ← irq_unlisten machine.irq_disable (current_task k) irq
  pure (status r)

-- `kbuf` behind the copy: a copy that fails leaves it as it was.
abbrev pub filled : List ℕ → Result (List ℕ) → List ℕ
filled kbuf (ok bytes) = bytes
filled kbuf (err e) = kbuf

-- The bytes that the loop of `sys_serial_write` writes, with `remaining` to go; eight rounds are
-- enough for 4096 bytes.
unfoldable pub write_loop : ℕ → Machine → ℕ → ℕ → List ℕ
unfolding memcpy_from_user
write_loop zero machine buf remaining = []
write_loop (suc rounds) machine buf remaining =
    let copy_len = min remaining 512 in
    let rest = write_loop rounds machine buf (remaining - copy_len) in
    if remaining == 0
    then []
    else filled (read_bytes machine.stack 0 copy_len) (memcpy_from_user machine.user buf copy_len)
      ++ rest

unfoldable pub sys_serial_write : Machine → ℕ → ℕ → M Return
unfolding write_loop
sys_serial_write machine buf buf_len =
    let written_len = min buf_len 4096 in
    pure (writes (write_loop 9 machine buf written_len) written_len)

-- `MIN(max_len, 128)` of a signed `max_len`.
unfoldable pub sys_serial_read : ℕ → ℕ → M Return
sys_serial_read buf max_len =
    pure (reads buf (if leb 0x8000_0000 max_len then max_len else min max_len 128))

-- TICK_HZ / 1000 is 1.
unfoldable pub sys_time : ℕ → M Return
sys_time timeout = if leb 0x8000_0000 timeout then pure (value (err invalid_arg)) else (do
  k ← get
  modify_task (current_task k) (λ t. record t { timeout = timeout })
  pure (value (ok 0)))

unfoldable pub sys_uptime : M Return
sys_uptime = do k ← get; pure (value (ok (k.uptime_ticks / 1000)))

-- The calls by their numbers, from SYS_IPC = 1 to SYS_SHUTDOWN = 17.
abbrev pub handlers : ℕ → Machine → ℕ → ℕ → ℕ → ℕ → ℕ → List (M Return)
handlers fuel machine a0 a1 a2 a3 a4 =
    sys_ipc machine a0 a1 a2 a3
    ∷ sys_notify a0 a1
    ∷ sys_serial_write machine a0 a1
    ∷ sys_serial_read a0 a1
    ∷ sys_task_create machine a0 a1 a2
    ∷ sys_task_destroy fuel machine a0
    ∷ pure (exits exp_grace_exit)
    ∷ sys_task_self
    ∷ sys_pm_alloc a0 a1 a2
    ∷ sys_vm_map machine.vm_map a0 a1 a2 a3
    ∷ sys_vm_unmap machine.vm_unmap a0 a1
    ∷ sys_irq_listen machine a0
    ∷ sys_irq_unlisten machine a0
    ∷ sys_time a0
    ∷ sys_uptime
    ∷ sys_hinavm machine a0 a1 a2 a3
    ∷ pure shuts_down
    ∷ []

-- The handler at an index; behind the last call there is none.
abbrev pub handler : List (M Return) → ℕ → M Return
handler [] n = pure (value (err invalid_arg))
handler (h ∷ rest) zero = h
handler (h ∷ rest) (suc n) = handler rest n

unfoldable pub handle_syscall : ℕ → Machine → ℕ → ℕ → ℕ → ℕ → ℕ → ℕ → M Return
unfolding sys_ipc sys_notify sys_serial_write sys_serial_read sys_task_create sys_task_destroy
    sys_task_self sys_pm_alloc sys_vm_map sys_vm_unmap sys_irq_listen sys_irq_unlisten sys_time
    sys_uptime sys_hinavm
handle_syscall fuel machine a0 a1 a2 a3 a4 n =
    handler (pure (value (err invalid_arg)) ∷ handlers fuel machine a0 a1 a2 a3 a4) n
