-- ===== src/Hinavm/Inst.antt =====
-- libs/common/hinavm_types.h: the instructions, their bit fields and the macros that assemble them.
-- An instruction is a 32-bit word.
use microkernel_book.Base.{ℕ, zero, suc, List, [], ◌∷◌, ◌+◌, ◌*◌, ◌/◌, ◌%◌, ◌^◌}

-- The operations with two operands.
pub data Binop : Type 0 where
  add sub mul div rem shl shr and or xor eq ne lt le : Binop

-- The widths of the message buffer's accesses, in bytes: 1, 2 and 4.
pub data Width : Type 0 where
  w8 w16 w32 : Width

-- The instructions with their operands; `illegal` stands for all other opcodes.
pub data Inst : Type 0 where
  nop exit : Inst
  movi : (a : ℕ) → (imm : ℕ) → Inst
  mov : (a : ℕ) → (b : ℕ) → Inst
  binop : Binop → (a : ℕ) → (b : ℕ) → (c : ℕ) → Inst
  labeldef : (l : ℕ) → Inst
  jmp : (l : ℕ) → Inst
  jmp_if : (l : ℕ) → (a : ℕ) → Inst
  ldm : Width → (a : ℕ) → (imm : ℕ) → Inst
  stm : Width → (a : ℕ) → (imm : ℕ) → Inst
  send : (a : ℕ) → (b : ℕ) → Inst
  reply : (a : ℕ) → (b : ℕ) → Inst
  recv : (a : ℕ) → (b : ℕ) → Inst
  print : (a : ℕ) → Inst
  print_hex : (a : ℕ) → Inst
  illegal : Inst

-- The bit fields of `union hinavm_inst`, from the low bits on. Bits 8 to 11 are `l` in a label and a
-- jump and `a` elsewhere; a jump has its register in bits 12 to 15.
abbrev pub opcode_field : ℕ → ℕ
opcode_field inst = inst % 256

abbrev pub first_field : ℕ → ℕ
first_field inst = inst / 256 % 16

abbrev pub second_field : ℕ → ℕ
second_field inst = inst / 4096 % 16

abbrev pub third_field : ℕ → ℕ
third_field inst = inst / 65536 % 16

abbrev pub imm_field : ℕ → ℕ
imm_field inst = inst / 4096 % 2 ^ 20

-- The number of an operation among the opcodes.
abbrev pub binop_number : Binop → ℕ
binop_number add = 4
binop_number sub = 5
binop_number mul = 6
binop_number div = 7
binop_number rem = 8
binop_number shl = 9
binop_number shr = 10
binop_number and = 11
binop_number or = 12
binop_number xor = 13
binop_number eq = 14
binop_number ne = 15
binop_number lt = 16
binop_number le = 17

abbrev pub load_number : Width → ℕ
load_number w8 = 21
load_number w16 = 22
load_number w32 = 23

abbrev pub store_number : Width → ℕ
store_number w8 = 24
store_number w16 = 25
store_number w32 = 26

-- An instruction with two operands, from its word.
abbrev pub binop_of : Binop → ℕ → Inst
binop_of op w = binop op (first_field w) (second_field w) (third_field w)

-- What a word is as each of the instructions, in the order of `enum hinavm_opcode`.
abbrev instructions : ℕ → List Inst
instructions w =
    illegal
    ∷ nop
    ∷ movi (first_field w) (imm_field w)
    ∷ mov (first_field w) (second_field w)
    ∷ binop_of add w
    ∷ binop_of sub w
    ∷ binop_of mul w
    ∷ binop_of div w
    ∷ binop_of rem w
    ∷ binop_of shl w
    ∷ binop_of shr w
    ∷ binop_of and w
    ∷ binop_of or w
    ∷ binop_of xor w
    ∷ binop_of eq w
    ∷ binop_of ne w
    ∷ binop_of lt w
    ∷ binop_of le w
    ∷ labeldef (first_field w)
    ∷ jmp (first_field w)
    ∷ jmp_if (first_field w) (second_field w)
    ∷ ldm w8 (first_field w) (imm_field w)
    ∷ ldm w16 (first_field w) (imm_field w)
    ∷ ldm w32 (first_field w) (imm_field w)
    ∷ stm w8 (first_field w) (imm_field w)
    ∷ stm w16 (first_field w) (imm_field w)
    ∷ stm w32 (first_field w) (imm_field w)
    ∷ send (first_field w) (second_field w)
    ∷ reply (first_field w) (second_field w)
    ∷ recv (first_field w) (second_field w)
    ∷ print (first_field w)
    ∷ print_hex (first_field w)
    ∷ exit
    ∷ []

-- The entry at an index; behind the last opcode a word is illegal.
abbrev entry : List Inst → ℕ → Inst
entry [] n = illegal
entry (x ∷ xs) zero = x
entry (x ∷ xs) (suc n) = entry xs n

-- The instruction that a word with this opcode is.
abbrev pub decode_as : ℕ → ℕ → Inst
decode_as n w = entry (instructions w) n

unfoldable pub decode : ℕ → Inst
decode inst = decode_as (opcode_field inst) inst

-- A word with these fields; a value is cut to the width of its field.
abbrev pub pack : ℕ → ℕ → ℕ → ℕ → ℕ
pack opcode first second third = opcode + first % 16 * 256 + second % 16 * 4096 + third % 16 * 65536

abbrev pub pack_imm : ℕ → ℕ → ℕ → ℕ
pack_imm opcode first imm = opcode + first % 16 * 256 + imm % 2 ^ 20 * 4096

-- The macros I_MOVI to I_NOP.
unfoldable pub encode : Inst → ℕ
encode nop = pack 1 0 0 0
encode exit = pack 32 0 0 0
encode (movi a imm) = pack_imm 2 a imm
encode (mov a b) = pack 3 a b 0
encode (binop op a b c) = pack (binop_number op) a b c
encode (labeldef l) = pack 18 l 0 0
encode (jmp l) = pack 19 l 0 0
encode (jmp_if l a) = pack 20 l a 0
encode (ldm w a imm) = pack_imm (load_number w) a imm
encode (stm w a imm) = pack_imm (store_number w) a imm
encode (send a b) = pack 27 a b 0
encode (reply a b) = pack 28 a b 0
encode (recv a b) = pack 29 a b 0
encode (print a) = pack 30 a 0 0
encode (print_hex a) = pack 31 a 0 0
encode illegal = 0
