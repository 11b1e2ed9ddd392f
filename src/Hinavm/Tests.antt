-- ===== src/Hinavm/Tests.antt =====
-- Programs of the interpreter on concrete inputs.
use microkernel_book.Base.{
  ℕ, zero, suc, ◌≡◌, inl, inr, refl, sym, arith, Option, none, some, List, [], ◌∷◌,
}
use microkernel_book.Kernel.Invariant.Tests.{machine}
use microkernel_book.Hinavm.Inst.{
  Inst, exit, movi, binop, labeldef, jmp, jmp_if, stm, illegal, decode, encode, add, div, w8, Width,
}
use microkernel_book.Hinavm.Coding.{decode-encode}
use microkernel_book.Hinavm.Machine.{
  Hinavm, Step, Run, ended, exits, run, resolve_labels, start, message_at, operate,
}
use microkernel_book.Hinavm.Rules.{AfterRun, Jumps}
use microkernel_book.Hinavm.Words.{Words, run-Words}
use microkernel_book.Hinavm.Runs.{Forward, Confined, Outside, run-Forward, run-Outside}

abbrev assemble : List Inst → ℕ → ℕ
assemble [] i = 0
assemble (x ∷ xs) zero = encode x
assemble (x ∷ xs) (suc i) = assemble xs i

-- Writes 5 + 5 at byte 8 of the message, behind a jump.
abbrev program : Hinavm
program = record {
  insts =
      assemble
        (movi 1 5 ∷ binop add 2 1 1 ∷ jmp_if 3 1 ∷ movi 2 7 ∷ labeldef 3 ∷ stm w8 2 8 ∷ exit ∷ []);
  num_insts = 7;
}

abbrev no_memory : ℕ → ℕ
no_memory a = 0

program_label : resolve_labels program 3 ≡ 5
unfolding resolve_labels decode encode
program_label = refl

-- How a run ended.
abbrev reason_of : Run → Option ℕ
reason_of (ended (exits reason vm)) = some reason
reason_of other = none

-- A byte of the memory behind a run.
abbrev byte_of : ℕ → Run → Option ℕ
byte_of a (ended (exits reason vm)) = some (vm.mem a)
byte_of a other = none

program_runs : reason_of (run 7 machine 4096 program (start no_memory)) ≡ some 1
unfolding run resolve_labels decode encode start
program_runs = refl

program_stores : byte_of 4104 (run 7 machine 4096 program (start no_memory)) ≡ some 10
unfolding run resolve_labels decode encode start operate
program_stores = refl

division_by_zero : operate div 7 0 ≡ none
unfolding operate
division_by_zero = refl

decode-encode_example : decode (encode (jmp_if 3 1)) ≡ jmp_if 3 1
decode-encode_example = decode-encode (jmp_if 3 1) (omega arith, omega arith)

start-Words : Words program (start no_memory)
unfolding start
start-Words = record { word = λ r. omega arith; place = inl (omega arith) }

run-Words_example : AfterRun (Words program) (run 7 machine 4096 program (start no_memory))
run-Words_example = run-Words 7 machine 4096 program (start no_memory) start-Words

-- Jumps over an illegal instruction and stores one byte.
abbrev skip : Hinavm
skip = record {
  insts = assemble (jmp 0 ∷ illegal ∷ labeldef 0 ∷ stm w8 1 8 ∷ exit ∷ []);
  num_insts = 5;
}

jmp-label : (l : ℕ) → Jumps (jmp 0) l → l ≡ 0
jmp-label l (inl e) = sym (jmp-injective e)
  where
    jmp-injective : {x y : ℕ} → jmp x ≡ jmp y → x ≡ y
    jmp-injective e = cc
jmp-label l (inr (a, e)) = cc

skip-Forward : Forward skip
unfolding decode encode resolve_labels
skip-Forward zero l h jumps = rw (jmp-label l jumps) (omega arith)
skip-Forward (suc zero) l h jumps = absurd (ground (arith, jumps))
skip-Forward (suc (suc zero)) l h jumps = absurd (ground (arith, jumps))
skip-Forward (suc (suc (suc zero))) l h jumps = absurd (ground (arith, jumps))
skip-Forward (suc (suc (suc (suc i)))) l h jumps = absurd (ground (arith, jumps))

run-Forward_example : (e : Step) × (run 6 machine 4096 skip (start no_memory) ≡ ended e)
run-Forward_example =
    run-Forward 6 machine 4096 skip (start no_memory) skip-Forward (omega arith) (omega arith)

skip-Confined : Confined 4096 256 skip
unfolding decode encode message_at
skip-Confined zero w a imm h e = cc
skip-Confined (suc zero) w a imm h e = cc
skip-Confined (suc (suc zero)) w a imm h e = cc
skip-Confined (suc (suc (suc zero))) w a imm h e =
    rw (← stm-width e, ← stm-imm e) (omega arith, omega arith)
  where
    stm-width : {v w : Width} {a b x y : ℕ} → stm v a x ≡ stm w b y → v ≡ w
    stm-width e = cc

    stm-imm : {v w : Width} {a b x y : ℕ} → stm v a x ≡ stm w b y → x ≡ y
    stm-imm e = cc
skip-Confined (suc (suc (suc (suc zero)))) w a imm h e = cc
skip-Confined (suc (suc (suc (suc (suc i))))) w a imm h e = absurd (omega arith)

run-Outside_example :
    AfterRun (Outside 4096 256 no_memory) (run 6 machine 4096 skip (start no_memory))
unfolding start
run-Outside_example = run-Outside 6 machine 4096 256 skip (start no_memory) skip-Confined
