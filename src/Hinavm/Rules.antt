-- ===== src/Hinavm/Rules.antt =====
-- kernel/hinavm.c: rules for one round of the main loop and for a run of it.
use microkernel_book.Base.{
  ℕ, zero, suc, ◌+◌, ◌<◌, ◌≡◌, ◌⊎◌, inl, inr, refl, arith, Option, none, some, Bool, true, false,
  Bool-cases, leb, if◌then◌else◌,
}
use microkernel_book.Kernel.State.{Kernel, Flags}
use microkernel_book.Hinavm.Inst.{
  Inst, nop, exit, movi, mov, binop, labeldef, jmp, jmp_if, ldm, stm, send, reply, recv, print,
  print_hex, illegal, decode, Width,
}
use microkernel_book.Hinavm.Machine.{
  Hinavm, Vm, Step, Run, ended, unfinished, goes_on, exits, calls_ipc, undefined, set_reg,
  set_result, send_to, execute, step, run, then_run, resolve_labels, store, message_at,
}

-- `P` holds of the state that a step leaves.
abbrev pub After : (Vm → Type 0) → Step → Type 0
After P (goes_on vm) = P vm
After P (exits reason vm) = P vm
After P (calls_ipc dst src flags a vm) = P vm
After P (undefined vm) = P vm

-- The same of the outcome of a run.
abbrev pub AfterRun : (Vm → Type 0) → Run → Type 0
AfterRun P (unfinished vm) = P vm
AfterRun P (ended s) = After P s

-- The instruction may go on at the label.
abbrev pub Jumps : Inst → ℕ → Type 0
Jumps inst l = (inst ≡ jmp l) ⊎ ((a : ℕ) × (inst ≡ jmp_if l a))

abbrev pub next_state : Vm → Vm
next_state vm = record vm { pc = vm.pc + 1 }

module _ (P : Vm → Type 0) where
  P-if :
      (b : Bool) (vm : Vm) (x y : ℕ)
      → P (record vm { pc = x })
      → P (record vm { pc = y })
      → P (record vm { pc = if b then x else y })
  P-if true vm x y hx hy = hx
  P-if false vm x y hx hy = hy

  send_to-After :
      (dst : Option ℕ) (flags : Flags) (a : ℕ) (vm : Vm) → P vm → After P (send_to dst flags a vm)
  unfolding send_to
  send_to-After none flags a vm h = h
  send_to-After (some dst) flags a vm h = h

module _ (P : Vm → Type 0) (keep : (a v : ℕ) (vm : Vm) → P vm → P (set_reg a v vm)) where
  set_result-After : (a : ℕ) (r : Option ℕ) (vm : Vm) → P vm → After P (set_result a r vm)
  unfolding set_result
  set_result-After a none vm h = h
  set_result-After a (some v) vm h = keep a v vm h

  -- A property that writing a register keeps holds behind an instruction, if it holds of the next
  -- place, of the label that a jump names, and behind a store.
  pub execute-After :
      (k : Kernel) (m : ℕ) (labels : ℕ → ℕ) (inst : Inst) (vm : Vm)
      → P (next_state vm)
      → ((l : ℕ) → Jumps inst l → P (record vm { pc = labels l }))
      → ((w : Width) (a imm : ℕ)
          → inst ≡ stm w a imm
          → P (record vm { pc = vm.pc + 1; mem = store w vm.mem (message_at m imm) (vm.regs a) }))
      → After P (execute k m labels inst vm)
  unfolding execute
  execute-After k m labels nop vm n j s = n
  execute-After k m labels exit vm n j s = n
  execute-After k m labels (movi a imm) vm n j s = keep a _ _ n
  execute-After k m labels (mov a b) vm n j s = keep a _ _ n
  execute-After k m labels (binop op a b c) vm n j s = set_result-After a _ _ n
  execute-After k m labels (labeldef l) vm n j s = n
  execute-After k m labels (jmp l) vm n j s = j l (inl refl)
  execute-After k m labels (jmp_if l a) vm n j s = P-if P _ vm _ _ (j l (inr (a, refl))) n
  execute-After k m labels (ldm w a imm) vm n j s = keep a _ _ n
  execute-After k m labels (stm w a imm) vm n j s = s w a imm refl
  execute-After k m labels (send a b) vm n j s = send_to-After P _ _ a _ n
  execute-After k m labels (reply a b) vm n j s = send_to-After P _ _ a _ n
  execute-After k m labels (recv a b) vm n j s = n
  execute-After k m labels (print a) vm n j s = n
  execute-After k m labels (print_hex a) vm n j s = n
  execute-After k m labels illegal vm n j s = n

-- A round inside the program executes the instruction there; outside it ends the task.
pub step-After :
    (P : Vm → Type 0) (k : Kernel) (m : ℕ) (h : Hinavm) (vm : Vm)
    → P vm
    → (vm.pc < h.num_insts → After P (execute k m (resolve_labels h) (decode (h.insts vm.pc)) vm))
    → After P (step k m h vm)
unfolding step
step-After P k m h vm here inside = elim (Bool-cases (leb h.num_insts vm.pc)) [
  | inl out ↦ rw out here
  | inr in_range ↦ rw in_range (inside (ground arith))
]

then_run-AfterRun :
    (P : Vm → Type 0) (s : Step) (f : Vm → Run)
    → After P s
    → ((next : Vm) → P next → AfterRun P (f next))
    → AfterRun P (then_run s f)
then_run-AfterRun P (goes_on next) f h go = go next h
then_run-AfterRun P (exits reason vm) f h go = h
then_run-AfterRun P (calls_ipc dst src flags a next) f h go = h
then_run-AfterRun P (undefined vm) f h go = h

-- What every round keeps holds behind a run.
pub run-AfterRun :
    (P : Vm → Type 0) (k : Kernel) (m : ℕ) (h : Hinavm)
    → ((vm : Vm) → P vm → After P (step k m h vm))
    → (rounds : ℕ) (vm : Vm) → P vm
    → AfterRun P (run rounds k m h vm)
unfolding run
run-AfterRun P k m h keep zero vm p = p
run-AfterRun P k m h keep (suc rounds) vm p =
    then_run-AfterRun P (step k m h vm) _ (keep vm p)
      λ next q. run-AfterRun P k m h keep rounds next q
