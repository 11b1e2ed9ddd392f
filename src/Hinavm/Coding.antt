-- ===== src/Hinavm/Coding.antt =====
-- Assembling and decoding instructions.
use microkernel_book.Base.{ℕ, ◌^◌, ◌<◌, ◌≡◌, ◌∙◌, refl, ap, arith}
use microkernel_book.Hinavm.Inst.{
  Inst, nop, exit, movi, mov, binop, labeldef, jmp, jmp_if, ldm, stm, send, reply, recv, print,
  print_hex, illegal, Binop, Width, opcode_field, first_field, second_field, third_field, imm_field,
  pack, pack_imm, decode_as, decode, encode, add, sub, mul, div, rem, shl, shr, and, or, xor, eq,
  ne, lt, le, w8, w16, w32,
}

-- Registers and labels are numbered below 16, and an immediate has 20 bits.
abbrev pub Fits : Inst → Type 0
Fits (movi a imm) = (a < 16) × (imm < 2 ^ 20)
Fits (mov a b) = (a < 16) × (b < 16)
Fits (binop op a b c) = (a < 16) × (b < 16) × (c < 16)
Fits (labeldef l) = l < 16
Fits (jmp l) = l < 16
Fits (jmp_if l a) = (l < 16) × (a < 16)
Fits (ldm w a imm) = (a < 16) × (imm < 2 ^ 20)
Fits (stm w a imm) = (a < 16) × (imm < 2 ^ 20)
Fits (send a b) = (a < 16) × (b < 16)
Fits (reply a b) = (a < 16) × (b < 16)
Fits (recv a b) = (a < 16) × (b < 16)
Fits (print a) = a < 16
Fits (print_hex a) = a < 16
Fits _ = Unit {0}

module _ (op a b c : ℕ) (o : op < 256) where
  opcode-pack : opcode_field (pack op a b c) ≡ op
  opcode-pack = omega arith

  first-pack : a < 16 → first_field (pack op a b c) ≡ a
  first-pack h = omega arith

  second-pack : b < 16 → second_field (pack op a b c) ≡ b
  second-pack h = omega arith

  third-pack : c < 16 → third_field (pack op a b c) ≡ c
  third-pack h = omega arith

  opcode-pack_imm : opcode_field (pack_imm op a b) ≡ op
  opcode-pack_imm = omega arith

  first-pack_imm : a < 16 → first_field (pack_imm op a b) ≡ a
  first-pack_imm h = omega arith

  imm-pack_imm : b < 2 ^ 20 → imm_field (pack_imm op a b) ≡ b
  imm-pack_imm h = omega arith

-- An operation's word decodes by its number.
decode-pack : (op a b c : ℕ) → op < 256 → decode (pack op a b c) ≡ decode_as op (pack op a b c)
unfolding decode
decode-pack op a b c o = ap (λ n. decode_as n (pack op a b c)) (opcode-pack op a b c o)

decode-pack_imm :
    (op a imm : ℕ) → op < 256 → decode (pack_imm op a imm) ≡ decode_as op (pack_imm op a imm)
unfolding decode
decode-pack_imm op a imm o =
    ap (λ n. decode_as n (pack_imm op a imm)) (opcode-pack_imm op a imm 0 o)

binop-pack :
    (op : Binop) (n a b c : ℕ)
    → n < 256
    → a < 16
    → b < 16
    → c < 16
    → binop op
        (first_field (pack n a b c))
        (second_field (pack n a b c))
        (third_field (pack n a b c))
      ≡ binop op a b c
binop-pack op n a b c o ha hb hc =
    rw (first-pack n a b c o ha, second-pack n a b c o hb, third-pack n a b c o hc) refl

module _ (make : ℕ → ℕ → Inst) where
  two-pack :
      (n a b : ℕ)
      → n < 256
      → a < 16
      → b < 16
      → make (first_field (pack n a b 0)) (second_field (pack n a b 0)) ≡ make a b
  two-pack n a b o ha hb = rw (first-pack n a b 0 o ha, second-pack n a b 0 o hb) refl

  imm-pack :
      (n a imm : ℕ)
      → n < 256
      → a < 16
      → imm < 2 ^ 20
      → make (first_field (pack_imm n a imm)) (imm_field (pack_imm n a imm)) ≡ make a imm
  imm-pack n a imm o ha hi = rw (first-pack_imm n a imm 0 o ha, imm-pack_imm n a imm 0 o hi) refl

decode-binop :
    (op : Binop) (a b c : ℕ)
    → a < 16
    → b < 16
    → c < 16
    → decode (encode (binop op a b c)) ≡ binop op a b c
unfolding encode
decode-binop add a b c ha hb hc =
    decode-pack 4 a b c (omega arith) ∙ binop-pack add 4 a b c (omega arith) ha hb hc
decode-binop sub a b c ha hb hc =
    decode-pack 5 a b c (omega arith) ∙ binop-pack sub 5 a b c (omega arith) ha hb hc
decode-binop mul a b c ha hb hc =
    decode-pack 6 a b c (omega arith) ∙ binop-pack mul 6 a b c (omega arith) ha hb hc
decode-binop div a b c ha hb hc =
    decode-pack 7 a b c (omega arith) ∙ binop-pack div 7 a b c (omega arith) ha hb hc
decode-binop rem a b c ha hb hc =
    decode-pack 8 a b c (omega arith) ∙ binop-pack rem 8 a b c (omega arith) ha hb hc
decode-binop shl a b c ha hb hc =
    decode-pack 9 a b c (omega arith) ∙ binop-pack shl 9 a b c (omega arith) ha hb hc
decode-binop shr a b c ha hb hc =
    decode-pack 10 a b c (omega arith) ∙ binop-pack shr 10 a b c (omega arith) ha hb hc
decode-binop and a b c ha hb hc =
    decode-pack 11 a b c (omega arith) ∙ binop-pack and 11 a b c (omega arith) ha hb hc
decode-binop or a b c ha hb hc =
    decode-pack 12 a b c (omega arith) ∙ binop-pack or 12 a b c (omega arith) ha hb hc
decode-binop xor a b c ha hb hc =
    decode-pack 13 a b c (omega arith) ∙ binop-pack xor 13 a b c (omega arith) ha hb hc
decode-binop eq a b c ha hb hc =
    decode-pack 14 a b c (omega arith) ∙ binop-pack eq 14 a b c (omega arith) ha hb hc
decode-binop ne a b c ha hb hc =
    decode-pack 15 a b c (omega arith) ∙ binop-pack ne 15 a b c (omega arith) ha hb hc
decode-binop lt a b c ha hb hc =
    decode-pack 16 a b c (omega arith) ∙ binop-pack lt 16 a b c (omega arith) ha hb hc
decode-binop le a b c ha hb hc =
    decode-pack 17 a b c (omega arith) ∙ binop-pack le 17 a b c (omega arith) ha hb hc

decode-ldm :
    (w : Width) (a imm : ℕ) → a < 16 → imm < 2 ^ 20 → decode (encode (ldm w a imm)) ≡ ldm w a imm
unfolding encode
decode-ldm w8 a imm ha hi =
    decode-pack_imm 21 a imm (omega arith) ∙ imm-pack (ldm w8) 21 a imm (omega arith) ha hi
decode-ldm w16 a imm ha hi =
    decode-pack_imm 22 a imm (omega arith) ∙ imm-pack (ldm w16) 22 a imm (omega arith) ha hi
decode-ldm w32 a imm ha hi =
    decode-pack_imm 23 a imm (omega arith) ∙ imm-pack (ldm w32) 23 a imm (omega arith) ha hi

decode-stm :
    (w : Width) (a imm : ℕ) → a < 16 → imm < 2 ^ 20 → decode (encode (stm w a imm)) ≡ stm w a imm
unfolding encode
decode-stm w8 a imm ha hi =
    decode-pack_imm 24 a imm (omega arith) ∙ imm-pack (stm w8) 24 a imm (omega arith) ha hi
decode-stm w16 a imm ha hi =
    decode-pack_imm 25 a imm (omega arith) ∙ imm-pack (stm w16) 25 a imm (omega arith) ha hi
decode-stm w32 a imm ha hi =
    decode-pack_imm 26 a imm (omega arith) ∙ imm-pack (stm w32) 26 a imm (omega arith) ha hi

-- Every instruction with registers and labels below 16 and an immediate of 20 bits decodes from the
-- word that its macro assembles.
pub decode-encode : (i : Inst) → Fits i → decode (encode i) ≡ i
unfolding encode decode
decode-encode nop h = refl
decode-encode exit h = refl
decode-encode (movi a imm) (ha, hi) =
    decode-pack_imm 2 a imm (omega arith) ∙ imm-pack movi 2 a imm (omega arith) ha hi
decode-encode (mov a b) (ha, hb) =
    decode-pack 3 a b 0 (omega arith) ∙ two-pack mov 3 a b (omega arith) ha hb
decode-encode (binop op a b c) (ha, hb, hc) = decode-binop op a b c ha hb hc
decode-encode (labeldef l) h =
    decode-pack 18 l 0 0 (omega arith) ∙ ap labeldef (first-pack 18 l 0 0 (omega arith) h)
decode-encode (jmp l) h =
    decode-pack 19 l 0 0 (omega arith) ∙ ap jmp (first-pack 19 l 0 0 (omega arith) h)
decode-encode (jmp_if l a) (hl, ha) =
    decode-pack 20 l a 0 (omega arith) ∙ two-pack jmp_if 20 l a (omega arith) hl ha
decode-encode (ldm w a imm) (ha, hi) = decode-ldm w a imm ha hi
decode-encode (stm w a imm) (ha, hi) = decode-stm w a imm ha hi
decode-encode (send a b) (ha, hb) =
    decode-pack 27 a b 0 (omega arith) ∙ two-pack send 27 a b (omega arith) ha hb
decode-encode (reply a b) (ha, hb) =
    decode-pack 28 a b 0 (omega arith) ∙ two-pack reply 28 a b (omega arith) ha hb
decode-encode (recv a b) (ha, hb) =
    decode-pack 29 a b 0 (omega arith) ∙ two-pack recv 29 a b (omega arith) ha hb
decode-encode (print a) h =
    decode-pack 30 a 0 0 (omega arith) ∙ ap print (first-pack 30 a 0 0 (omega arith) h)
decode-encode (print_hex a) h =
    decode-pack 31 a 0 0 (omega arith) ∙ ap print_hex (first-pack 31 a 0 0 (omega arith) h)
decode-encode illegal h = refl
