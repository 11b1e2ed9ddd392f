-- ===== src/Hinavm/Words.antt =====
-- kernel/hinavm.c: the values that the registers and the program counter take.
use microkernel_book.Base.{ℕ, ◌≤◌, ◌<◌, ◌≡◌, ◌⊎◌, inl, inr, arith}
use microkernel_book.Kernel.State.{Kernel, u32_mod}
use microkernel_book.Hinavm.Inst.{decode}
use microkernel_book.Hinavm.Machine.{Hinavm, Vm, set_reg, step, run, resolve_labels, invalid_label}
use microkernel_book.Hinavm.Rules.{After, AfterRun, step-After, run-AfterRun, execute-After}
use microkernel_book.Hinavm.Labels.{resolve_labels_lem}

-- Every register holds a 32-bit word, and the program counter stands at an instruction, behind the
-- last one, or at an invalid label.
pub record Words (h : Hinavm) (vm : Vm) : Type 0 where
  pub word : (r : ℕ) → vm.regs r < u32_mod
  pub place : (vm.pc ≤ h.num_insts) ⊎ (vm.pc ≡ invalid_label)

label-place :
    (h : Hinavm) (l : ℕ) → (resolve_labels h l ≤ h.num_insts) ⊎ (resolve_labels h l ≡ invalid_label)
label-place h l = elim (resolve_labels_lem h l) [
  | inl (i, up, e, _, _) ↦ inl (omega arith)
  | inr (e, _) ↦ inr e
]

pub set_reg-Words : (h : Hinavm) (a v : ℕ) (vm : Vm) → Words h vm → Words h (set_reg a v vm)
unfolding set_reg
set_reg-Words h a v vm w = record { word = λ r. ground (arith, w.word r); place = w.place }

step-Words :
    (k : Kernel) (m : ℕ) (h : Hinavm) (vm : Vm) → Words h vm → After (Words h) (step k m h vm)
step-Words k m h vm w = step-After (Words h) k m h vm w λ inside.
    (execute-After (Words h) (set_reg-Words h) k m (resolve_labels h) (decode (h.insts vm.pc)) vm
      (record { word = w.word; place = inl (omega arith) })
      (λ l jumps. record { word = w.word; place = label-place h l })
      (λ w' a imm e. record { word = w.word; place = inl (omega arith) }))

-- A run of the interpreter, for any number of rounds, from registers that hold 32-bit words and a
-- program counter that stands in the program, behind its end or at the invalid label: the state
-- where it ends the task, calls `ipc` or does what C leaves undefined, and the one where its rounds
-- are used up, are of the same kind.
pub run-Words :
    (rounds : ℕ) (k : Kernel) (m : ℕ) (h : Hinavm) (vm : Vm)
    → Words h vm
    → AfterRun (Words h) (run rounds k m h vm)
run-Words rounds k m h vm w = run-AfterRun (Words h) k m h (step-Words k m h) rounds vm w
