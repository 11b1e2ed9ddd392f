-- ===== src/Hinavm/Runs.antt =====
-- kernel/hinavm.c: the end of a run, and the memory that it writes.
use microkernel_book.Base.{
  ℕ, zero, suc, ◌+◌, ◌≤◌, ◌<◌, ◌≡◌, ◌⊎◌, inl, inr, false, leb, Bool-cases, refl, ap, ◌∙◌, arith,
}
use microkernel_book.Kernel.State.{Kernel}
use microkernel_book.Hinavm.Inst.{stm, decode, Width, w8, w16, w32}
use microkernel_book.Hinavm.Machine.{
  Hinavm, Vm, Step, Run, ended, goes_on, exits, calls_ipc, undefined, set_reg, step, run, then_run,
  resolve_labels, store, message_at,
}
use microkernel_book.Hinavm.Rules.{After, AfterRun, Jumps, step-After, run-AfterRun, execute-After}

-- Every jump of the program goes to a later place.
abbrev pub Forward : Hinavm → Type 0
Forward h = (i l : ℕ) → i < h.num_insts → Jumps (decode (h.insts i)) l → i < resolve_labels h l

-- The place of the next round is a later one, unless the round was behind the end of the program.
abbrev Later : Hinavm → Vm → Vm → Type 0
Later h vm next = (vm.pc < next.pc) ⊎ (h.num_insts ≤ vm.pc)

step-Forward :
    (k : Kernel) (m : ℕ) (h : Hinavm) (vm : Vm)
    → Forward h
    → vm.pc < h.num_insts
    → After (Later h vm) (step k m h vm)
unfolding step set_reg
step-Forward k m h vm fwd inside =
    let no_end : leb h.num_insts vm.pc ≡ false = ground arith in
    rw no_end (
      execute-After (Later h vm) (λ a v next p. p) k m (resolve_labels h) (decode (h.insts vm.pc))
        vm (inl (omega arith)) (λ l jumps. inl (fwd vm.pc l inside jumps))
        (λ w a imm e. inl (omega arith)))

step-outside :
    (k : Kernel) (m : ℕ) (h : Hinavm) (vm : Vm) → h.num_insts ≤ vm.pc → step k m h vm ≡ exits 4 vm
unfolding step
step-outside k m h vm out = ground arith

then_run-ends :
    (s : Step) (f : Vm → Run) (P : Vm → Type 0)
    → After P s
    → ((next : Vm) → P next → (e : Step) × (f next ≡ ended e))
    → (e : Step) × (then_run s f ≡ ended e)
then_run-ends (goes_on next) f P h go = go next h
then_run-ends (exits reason vm) f P h go = (exits reason vm, refl)
then_run-ends (calls_ipc dst src flags a next) f P h go = (calls_ipc dst src flags a next, refl)
then_run-ends (undefined vm) f P h go = (undefined vm, refl)

-- A program whose jumps all lead to later places does not run for ever: from any state, with one
-- round more than there are instructions from the program counter on, the run ends, calls `ipc` or
-- does what C leaves undefined.
pub run-Forward :
    (rounds : ℕ) (k : Kernel) (m : ℕ) (h : Hinavm) (vm : Vm)
    → Forward h
    → h.num_insts < rounds + vm.pc
    → 0 < rounds
    → (e : Step) × (run rounds k m h vm ≡ ended e)
unfolding run
run-Forward zero k m h vm fwd enough pos = absurd (omega arith)
run-Forward (suc zero) k m h vm fwd enough pos = (
  exits 4 vm,
  ap (λ s. then_run s λ next. run 0 k m h next) (step-outside k m h vm (omega arith)),
)
run-Forward (suc (suc rounds)) k m h vm fwd enough pos = elim (Bool-cases (leb h.num_insts vm.pc)) [
  | inl out ↦ (
    exits 4 vm,
    ap (λ s. then_run s λ next. run (suc rounds) k m h next)
        (step-outside k m h vm (ground (arith, out))),
  )
  | inr inside ↦
      then_run-ends (step k m h vm) _ (Later h vm)
        (step-Forward k m h vm fwd (ground (arith, inside)))
        λ next later.
          (run-Forward (suc rounds) k m h next fwd (ground (arith, later, inside, enough))
            (omega arith))
]

abbrev bytes_of : Width → ℕ
bytes_of w8 = 1
bytes_of w16 = 2
bytes_of w32 = 4

-- Every store of the program lies in the `size` bytes from `m` on.
abbrev pub Confined : ℕ → ℕ → Hinavm → Type 0
Confined m size h =
    (i : ℕ) (w : Width) (a imm : ℕ)
    → i < h.num_insts
    → decode (h.insts i) ≡ stm w a imm
    → (m ≤ message_at m imm) × (message_at m imm + bytes_of w ≤ m + size)

-- The memory outside of these bytes is as it was.
abbrev pub Outside : ℕ → ℕ → (ℕ → ℕ) → Vm → Type 0
Outside m size old vm = (p : ℕ) → (p < m) ⊎ (m + size ≤ p) → vm.mem p ≡ old p

store-outside :
    (w : Width) (mem : ℕ → ℕ) (p v q : ℕ)
    → (q < p) ⊎ (p + bytes_of w ≤ q)
    → store w mem p v q ≡ mem q
unfolding store
store-outside w8 mem p v q h = ground arith
store-outside w16 mem p v q h = ground arith
store-outside w32 mem p v q h = ground arith

step-Outside :
    (k : Kernel) (m size : ℕ) (h : Hinavm) (old : ℕ → ℕ) (vm : Vm)
    → Confined m size h
    → Outside m size old vm
    → After (Outside m size old) (step k m h vm)
unfolding set_reg
step-Outside k m size h old vm confined same =
    step-After (Outside m size old) k m h vm same λ inside.
      (execute-After (Outside m size old) (λ a v next p. p) k m (resolve_labels h)
        (decode (h.insts vm.pc)) vm same (λ l jumps. same)
        (λ w a imm e p out.
          let range = confined vm.pc w a imm inside e in
          store-outside w vm.mem (message_at m imm) (vm.regs a) p (ground (arith, range))
          ∙ same p out))

-- A program whose stores all lie in the `size` bytes from the message buffer on leaves the memory
-- outside of them as it was: where the run ends the task, calls `ipc` or does what C leaves
-- undefined, and where its rounds are used up.
pub run-Outside :
    (rounds : ℕ) (k : Kernel) (m size : ℕ) (h : Hinavm) (vm : Vm)
    → Confined m size h
    → AfterRun (Outside m size vm.mem) (run rounds k m h vm)
run-Outside rounds k m size h vm confined =
    run-AfterRun (Outside m size vm.mem) k m h
      (λ next. step-Outside k m size h vm.mem next confined) rounds vm (λ p out. refl)
