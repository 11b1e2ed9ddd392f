-- ===== src/Tcp/Header.antt =====
-- servers/tcpip/tcp.h and libs/common/endian.h: headers and numbers as bytes.
use microkernel_book.Base.{
  ℕ, ◌+◌, ◌*◌, ◌/◌, ◌%◌, ◌^◌, ◌<◌, ◌≡◌, refl, ap, arith, Bool, true, false, some,
}
use microkernel_book.Tcp.Wire.{
  swap16, swap32, HeaderFlags, Header, header_bytes, header_of, flags_byte, flags_of, bit, is_set,
}

pub swap16_involutive : (x : ℕ) → x < 2 ^ 16 → swap16 (swap16 x) ≡ x
unfolding swap16
swap16_involutive x h = omega arith

pub swap32_involutive : (x : ℕ) → x < 2 ^ 32 → swap32 (swap32 x) ≡ x
unfolding swap32
swap32_involutive x h = omega arith

-- Every field has a value of its width.
pub record Fits (h : Header) : Type 0 where
  pub src_port : h.src_port < 2 ^ 16
  pub dst_port : h.dst_port < 2 ^ 16
  pub seqno : h.seqno < 2 ^ 32
  pub ackno : h.ackno < 2 ^ 32
  pub other : h.flags.other < 8
  pub win_size : h.win_size < 2 ^ 16
  pub checksum : h.checksum < 2 ^ 16
  pub urgent : h.urgent < 2 ^ 16

two-bytes : (x : ℕ) → x < 2 ^ 16 → x % 256 + x / 2 ^ 8 % 256 * 2 ^ 8 ≡ x
two-bytes x h = omega arith

four-bytes :
    (x : ℕ)
    → x < 2 ^ 32
    → x % 256 + x / 2 ^ 8 % 256 * 2 ^ 8 + x / 2 ^ 16 % 256 * 2 ^ 16 + x / 2 ^ 24 % 256 * 2 ^ 24 ≡ x
four-bytes x h = omega arith

is_set-bit : (b : Bool) (n : ℕ) → n ≡ bit b → is_set n ≡ b
is_set-bit true n e = rw e refl
is_set-bit false n e = rw e refl

bit-bound : (b : Bool) → bit b < 2
bit-bound true = omega arith
bit-bound false = omega arith

module _ (f : HeaderFlags) where
  abbrev Bits : Type 0
  Bits = (bit f.fin < 2) × (bit f.syn < 2) × (bit f.rst < 2) × (bit f.psh < 2) × (bit f.ack < 2)

  bits-bound : Bits
  bits-bound = (bit-bound f.fin, bit-bound f.syn, bit-bound f.rst, bit-bound f.psh, bit-bound f.ack)

  flags_of-flags_byte : flags_of (flags_byte f) ≡ f
  flags_of-flags_byte =
      let h = bits-bound in
      λ i. record {
        fin = is_set-bit f.fin (flags_byte f % 2) (omega (arith, h)) i;
        syn = is_set-bit f.syn (flags_byte f / 2 % 2) (omega (arith, h)) i;
        rst = is_set-bit f.rst (flags_byte f / 4 % 2) (omega (arith, h)) i;
        psh = is_set-bit f.psh (flags_byte f / 8 % 2) (omega (arith, h)) i;
        ack = is_set-bit f.ack (flags_byte f / 16 % 2) (omega (arith, h)) i;
        other = (let e : flags_byte f / 32 ≡ f.other = omega (arith, h) in e) i;
      }

-- A TCP header whose fields fit their widths is read back from its 20 bytes.
pub header_of-header_bytes : (h : Header) → Fits h → header_of (header_bytes h) ≡ some h
unfolding header_bytes header_of
header_of-header_bytes h f = ap some λ i. record {
  src_port = two-bytes h.src_port f.src_port i;
  dst_port = two-bytes h.dst_port f.dst_port i;
  seqno = four-bytes h.seqno f.seqno i;
  ackno = four-bytes h.ackno f.ackno i;
  off_and_ns = h.off_and_ns;
  flags = flags_of-flags_byte h.flags i;
  win_size = two-bytes h.win_size f.win_size i;
  checksum = two-bytes h.checksum f.checksum i;
  urgent = two-bytes h.urgent f.urgent i;
}
