-- ===== src/Hinavm/Machine.antt =====
-- kernel/hinavm.c: the interpreter, `hinavm_run`. A register is a 32-bit pattern; signed sums,
-- differences and products wrap, as the machine instructions for them do. The memory is the bytes
-- of the kernel's address space. A call of `ipc` suspends the interpreter.
use microkernel_book.Base.{
  ℕ, zero, suc, ◌+◌, ◌-◌, ◌*◌, ◌/◌, ◌%◌, ◌^◌, Bool, true, false, not, ◌&&◌, ◌||◌, Option, none,
  some, ◌==◌, ltb, leb, if◌then◌else◌, bit_and, bit_or, bit_xor, update,
}
use microkernel_book.Kernel.State.{Kernel, Flags, u32_mod}
use microkernel_book.Kernel.Sched.{task_find}
use microkernel_book.Hinavm.Inst.{
  Inst, nop, exit, movi, mov, binop, labeldef, jmp, jmp_if, ldm, stm, send, reply, recv, print,
  print_hex, illegal, Binop, Width, decode, add, sub, mul, div, rem, shl, shr, and, or, xor, eq, ne,
  lt, le, w8, w16, w32,
}

abbrev pub hinavm_insts_max : ℕ
hinavm_insts_max = 128

abbrev pub exp_grace_exit : ℕ
exp_grace_exit = 1

abbrev pub exp_illegal_exception : ℕ
exp_illegal_exception = 4

-- `struct hinavm`: the program.
pub record Hinavm : Type 0 where
  pub insts : ℕ → ℕ
  pub num_insts : ℕ

-- The variables of `hinavm_run` that change in its main loop, and the memory.
pub record Vm : Type 0 where
  pub pc : ℕ
  pub regs : ℕ → ℕ
  pub mem : ℕ → ℕ

-- What one round of the main loop does: it goes on, ends the task with an exception, calls `ipc`
-- (with a destination or NULL, a source, and the register that takes the result), or does what C
-- leaves undefined; each with the registers and the memory then, and the place that would be next.
pub data Step : Type 0 where
  goes_on : Vm → Step
  exits : (reason : ℕ) → Vm → Step
  calls_ipc : (dst : Option ℕ) → (src : ℕ) → Flags → (a : ℕ) → Vm → Step
  undefined : Vm → Step

-- SIGN_EXTEND20
unfoldable pub sign_extend20 : ℕ → ℕ
sign_extend20 x = if not (bit_and x (2 ^ 19) == 0) then bit_or x 0xfff0_0000 else x

-- The loop that resolves labels, from instruction `i` on.
unfoldable pub define_as : Inst → ℕ → (ℕ → ℕ) → ℕ → ℕ
define_as (labeldef l) i labels = update labels l (i + 1)
define_as _ i labels = labels

unfoldable pub define_label : Hinavm → ℕ → (ℕ → ℕ) → ℕ → ℕ
unfolding define_as
define_label h i labels = define_as (decode (h.insts i)) i labels

unfoldable pub resolve_loop : Hinavm → ℕ → ℕ → (ℕ → ℕ) → ℕ → ℕ
unfolding define_label
resolve_loop h zero i labels = labels
resolve_loop h (suc rounds) i labels = resolve_loop h rounds (i + 1) (define_label h i labels)

-- The labels before they are resolved: all bytes 0xff.
abbrev pub invalid_label : ℕ
invalid_label = 0xffff_ffff

unfoldable pub resolve_labels : Hinavm → ℕ → ℕ
unfolding resolve_loop
resolve_labels h = resolve_loop h h.num_insts 0 (λ l. invalid_label)

abbrev pub is_negative : ℕ → Bool
is_negative w = leb (2 ^ 31) w

abbrev pub negate : ℕ → ℕ
negate w = (u32_mod - w) % u32_mod

abbrev pub magnitude : ℕ → ℕ
magnitude w = if is_negative w then negate w else w

-- `(int32_t) lhs < rhs`
abbrev pub signed_lt : ℕ → ℕ → Bool
signed_lt lhs rhs = ltb ((lhs + 2 ^ 31) % u32_mod) ((rhs + 2 ^ 31) % u32_mod)

abbrev pub to_int : Bool → ℕ
to_int true = 1
to_int false = 0

-- A division that C leaves undefined: by zero, and of the least number by -1.
abbrev pub bad_divisor : ℕ → ℕ → Bool
bad_divisor lhs rhs = rhs == 0 || (lhs == 2 ^ 31 && rhs == 0xffff_ffff)

-- Division rounds towards zero, and a remainder has the sign of the dividend.
unfoldable pub int_div : ℕ → ℕ → Option ℕ
int_div lhs rhs =
    if bad_divisor lhs rhs
    then none
    else if (is_negative lhs && not (is_negative rhs)) || (is_negative rhs && not (is_negative lhs))
    then some (negate (magnitude lhs / magnitude rhs))
    else some (magnitude lhs / magnitude rhs)

unfoldable pub int_mod : ℕ → ℕ → Option ℕ
int_mod lhs rhs =
    if bad_divisor lhs rhs
    then none
    else if is_negative lhs
    then some (negate (magnitude lhs % magnitude rhs))
    else some (magnitude lhs % magnitude rhs)

-- The result of an operation with two operands, if C defines it.
unfoldable pub operate : Binop → ℕ → ℕ → Option ℕ
unfolding int_div int_mod
operate add lhs rhs = some (lhs + rhs)
operate sub lhs rhs = some (lhs + u32_mod - rhs)
operate mul lhs rhs = some (lhs * rhs)
operate div lhs rhs = int_div lhs rhs
operate rem lhs rhs = int_mod lhs rhs
operate shl lhs rhs = if ltb rhs 32 then some (lhs * 2 ^ rhs) else none
operate shr lhs rhs = if ltb rhs 32 then some (lhs / 2 ^ rhs) else none
operate and lhs rhs = some (bit_and lhs rhs)
operate or lhs rhs = some (bit_or lhs rhs)
operate xor lhs rhs = some (bit_xor lhs rhs)
operate eq lhs rhs = some (to_int (lhs == rhs))
operate ne lhs rhs = some (to_int (not (lhs == rhs)))
operate lt lhs rhs = some (to_int (signed_lt lhs rhs))
operate le lhs rhs = some (to_int (not (signed_lt rhs lhs)))

-- `regs[a] = v`, where a register holds 32 bits.
unfoldable pub set_reg : ℕ → ℕ → Vm → Vm
set_reg a v vm = record vm { regs = update vm.regs a (v % u32_mod) }

-- A load and a store of some bytes, low byte first.
unfoldable pub load : Width → (ℕ → ℕ) → ℕ → ℕ
load w8 mem p = mem p
load w16 mem p = mem p + mem (p + 1) * 256
load w32 mem p = mem p + mem (p + 1) * 256 + mem (p + 2) * 65536 + mem (p + 3) * 16777216

unfoldable pub store : Width → (ℕ → ℕ) → ℕ → ℕ → ℕ → ℕ
store w8 mem p v = update mem p (v % 256)
store w16 mem p v = update (update mem p (v % 256)) (p + 1) (v / 256 % 256)
store w32 mem p v =
    update
      (update (update (update mem p (v % 256)) (p + 1) (v / 256 % 256)) (p + 2) (v / 65536 % 256))
      (p + 3) (v / 16777216 % 256)

-- The address `m + offset`.
unfoldable pub message_at : ℕ → ℕ → ℕ
unfolding sign_extend20
message_at m imm = (m + sign_extend20 imm) % u32_mod

abbrev pub send_flags : Flags
send_flags = record { send = true; recv = false; noblock = false; kernel = true }

abbrev pub reply_flags : Flags
reply_flags = record { send = true; recv = false; noblock = true; kernel = true }

abbrev pub recv_flags : Flags
recv_flags = record { send = false; recv = true; noblock = false; kernel = true }

-- SEND and REPLY: a task that is not there ends the program.
unfoldable pub send_to : Option ℕ → Flags → ℕ → Vm → Step
send_to none flags a vm = exits exp_illegal_exception vm
send_to (some dst) flags a vm = calls_ipc (some dst) 0 flags a vm

unfoldable pub set_result : ℕ → Option ℕ → Vm → Step
unfolding set_reg
set_result a none vm = undefined vm
set_result a (some v) vm = goes_on (set_reg a v vm)

-- The `switch` of the main loop, for an instruction at `vm.pc`; `m` is the message buffer.
unfoldable pub execute : Kernel → ℕ → (ℕ → ℕ) → Inst → Vm → Step
unfolding operate set_reg load store message_at send_to set_result
execute k m labels (movi a imm) vm =
    goes_on (set_reg a (sign_extend20 imm) (record vm { pc = vm.pc + 1 }))
execute k m labels (mov a b) vm = goes_on (set_reg a (vm.regs b) (record vm { pc = vm.pc + 1 }))
execute k m labels (binop op a b c) vm =
    set_result a (operate op (vm.regs b) (vm.regs c)) (record vm { pc = vm.pc + 1 })
execute k m labels (labeldef l) vm = goes_on (record vm { pc = vm.pc + 1 })
execute k m labels (jmp l) vm = goes_on (record vm { pc = labels l })
execute k m labels (jmp_if l a) vm =
    goes_on (record vm { pc = if not (vm.regs a == 0) then labels l else vm.pc + 1 })
execute k m labels (ldm w a imm) vm =
    goes_on (set_reg a (load w vm.mem (message_at m imm)) (record vm { pc = vm.pc + 1 }))
execute k m labels (stm w a imm) vm =
    goes_on (record vm { pc = vm.pc + 1; mem = store w vm.mem (message_at m imm) (vm.regs a) })
execute k m labels (print a) vm = goes_on (record vm { pc = vm.pc + 1 })
execute k m labels (print_hex a) vm = goes_on (record vm { pc = vm.pc + 1 })
execute k m labels (send a b) vm =
    send_to (task_find k (vm.regs b)) send_flags a (record vm { pc = vm.pc + 1 })
execute k m labels (reply a b) vm =
    send_to (task_find k (vm.regs b)) reply_flags a (record vm { pc = vm.pc + 1 })
execute k m labels (recv a b) vm =
    calls_ipc none (vm.regs b) recv_flags a (record vm { pc = vm.pc + 1 })
execute k m labels exit vm = exits exp_grace_exit (record vm { pc = vm.pc + 1 })
execute k m labels nop vm = goes_on (record vm { pc = vm.pc + 1 })
execute k m labels illegal vm = exits exp_illegal_exception (record vm { pc = vm.pc + 1 })

-- One round of the main loop.
unfoldable pub step : Kernel → ℕ → Hinavm → Vm → Step
unfolding execute resolve_labels
step k m h vm =
    if leb h.num_insts vm.pc
    then exits exp_illegal_exception vm
    else execute k m (resolve_labels h) (decode (h.insts vm.pc)) vm

-- The state in which the main loop starts.
unfoldable pub start : (ℕ → ℕ) → Vm
start mem = record { pc = 0; regs = λ a. 0; mem = mem }

-- The loop goes on behind `ipc` with its result, an `error_t`, in the register.
unfoldable pub resume_ipc : ℕ → ℕ → Vm → Vm
unfolding set_reg
resume_ipc a result vm = set_reg a result vm

-- The state of a run: it has ended with a step, or its rounds are used up.
pub data Run : Type 0 where
  ended : Step → Run
  unfinished : Vm → Run

-- What follows a round: the next one, or the end of the run.
abbrev pub then_run : Step → (Vm → Run) → Run
then_run (goes_on next) f = f next
then_run (exits reason vm) f = ended (exits reason vm)
then_run (calls_ipc dst src flags a next) f = ended (calls_ipc dst src flags a next)
then_run (undefined vm) f = ended (undefined vm)

-- The main loop until it ends the task, calls `ipc` or does what is undefined, or `rounds` rounds
-- are over.
unfoldable pub run : ℕ → Kernel → ℕ → Hinavm → Vm → Run
unfolding step
run zero k m h vm = unfinished vm
run (suc rounds) k m h vm = then_run (step k m h vm) λ next. run rounds k m h next
