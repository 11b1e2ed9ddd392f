-- ===== src/Tcp/Wire.antt =====
-- libs/common/endian.h on a little-endian CPU, servers/tcpip/checksum.h and `struct tcp_header` of
-- servers/tcpip/tcp.h. Shifts and masks of bytes are written as quotients and remainders.
use microkernel_book.Base.{
  ℕ, zero, suc, ◌+◌, ◌-◌, ◌*◌, ◌/◌, ◌%◌, ◌^◌, Bool, true, false, List, [], ◌∷◌, Option, none, some,
  ◌==◌, if◌then◌else◌,
}
use microkernel_book.Mbuf.Ops.{Mbuf, mbuf_data, mbuf_len_one}

unfoldable pub swap16 : ℕ → ℕ
swap16 x = x / 2 ^ 8 % 256 + x % 256 * 2 ^ 8

unfoldable pub swap32 : ℕ → ℕ
swap32 x = x / 2 ^ 24 % 256 + x / 2 ^ 16 % 256 * 2 ^ 8 + x / 2 ^ 8 % 256 * 2 ^ 16 + x % 256 * 2 ^ 24

abbrev pub ntoh16 : ℕ → ℕ
ntoh16 x = swap16 x

abbrev pub ntoh32 : ℕ → ℕ
ntoh32 x = swap32 x

abbrev pub hton16 : ℕ → ℕ
hton16 x = swap16 x

abbrev pub hton32 : ℕ → ℕ
hton32 x = swap32 x

-- The bits TCP_FIN, TCP_SYN, TCP_RST, TCP_PSH and TCP_ACK, and the three bits above them.
pub record HeaderFlags : Type 0 where
  pub fin : Bool
  pub syn : Bool
  pub rst : Bool
  pub psh : Bool
  pub ack : Bool
  pub other : ℕ

abbrev pub bit : Bool → ℕ
bit true = 1
bit false = 0

abbrev pub flags_byte : HeaderFlags → ℕ
flags_byte f =
    bit f.fin + bit f.syn * 2 + bit f.rst * 4 + bit f.psh * 8 + bit f.ack * 16 + f.other * 32

abbrev pub is_set : ℕ → Bool
is_set zero = false
is_set (suc n) = true

abbrev pub flags_of : ℕ → HeaderFlags
flags_of b = record {
  fin = is_set (b % 2);
  syn = is_set (b / 2 % 2);
  rst = is_set (b / 4 % 2);
  psh = is_set (b / 8 % 2);
  ack = is_set (b / 16 % 2);
  other = b / 32;
}

-- `struct tcp_header`: its fields hold values in network byte order.
pub record Header : Type 0 where
  pub src_port : ℕ
  pub dst_port : ℕ
  pub seqno : ℕ
  pub ackno : ℕ
  pub off_and_ns : ℕ
  pub flags : HeaderFlags
  pub win_size : ℕ
  pub checksum : ℕ
  pub urgent : ℕ

abbrev pub header_size : ℕ
header_size = 20

-- A field of two bytes and one of four, in memory.
abbrev two_bytes : ℕ → List ℕ → List ℕ
two_bytes x rest = x % 256 ∷ x / 2 ^ 8 % 256 ∷ rest

abbrev four_bytes : ℕ → List ℕ → List ℕ
four_bytes x rest = x % 256 ∷ x / 2 ^ 8 % 256 ∷ x / 2 ^ 16 % 256 ∷ x / 2 ^ 24 % 256 ∷ rest

-- The bytes of the packed struct.
unfoldable pub header_bytes : Header → List ℕ
header_bytes h = two_bytes h.src_port (
    two_bytes h.dst_port (
      four_bytes h.seqno (
        four_bytes h.ackno (
          h.off_and_ns
          ∷ flags_byte h.flags
          ∷ two_bytes h.win_size (two_bytes h.checksum (two_bytes h.urgent []))))))

-- The struct that 20 bytes are.
unfoldable pub header_of : List ℕ → Option Header
header_of
      (a0 ∷ a1 ∷ b0 ∷ b1 ∷ c0 ∷ c1 ∷ c2 ∷ c3 ∷ d0 ∷ d1 ∷ d2 ∷ d3 ∷ o ∷ f ∷ w0 ∷ w1 ∷ s0 ∷ s1 ∷ u0
        ∷ u1 ∷ []) =
    some (record {
      src_port = a0 + a1 * 2 ^ 8;
      dst_port = b0 + b1 * 2 ^ 8;
      seqno = c0 + c1 * 2 ^ 8 + c2 * 2 ^ 16 + c3 * 2 ^ 24;
      ackno = d0 + d1 * 2 ^ 8 + d2 * 2 ^ 16 + d3 * 2 ^ 24;
      off_and_ns = o;
      flags = flags_of f;
      win_size = w0 + w1 * 2 ^ 8;
      checksum = s0 + s1 * 2 ^ 8;
      urgent = u0 + u1 * 2 ^ 8;
    })
header_of _ = none

-- A place of a list of bytes as memory; behind its end the bytes are not read.
abbrev pub as_memory : List ℕ → ℕ → ℕ
as_memory [] i = 0
as_memory (x ∷ xs) zero = x
as_memory (x ∷ xs) (suc i) = as_memory xs i

-- The loop of `checksum_update` over 16-bit words, with `rounds` words left.
unfoldable pub sum_words : ℕ → ℕ → (ℕ → ℕ) → ℕ → ℕ
sum_words zero c bytes at = c
sum_words (suc rounds) c bytes at =
    sum_words rounds ((c + (bytes at + bytes (at + 1) * 2 ^ 8)) % 2 ^ 32) bytes (at + 2)

unfoldable pub checksum_update : ℕ → (ℕ → ℕ) → ℕ → ℕ → ℕ
unfolding sum_words
checksum_update c bytes at len =
    let words = sum_words (len / 2) c bytes at in
    if len % 2 == 0 then words else (words + bytes (at + (len - 1))) % 2 ^ 32

unfoldable pub checksum_update_uint16 : ℕ → ℕ → ℕ
checksum_update_uint16 c value = (c + value) % 2 ^ 32

unfoldable pub checksum_update_uint32 : ℕ → ℕ → ℕ
checksum_update_uint32 c value = ((c + value % 2 ^ 16) % 2 ^ 32 + value / 2 ^ 16) % 2 ^ 32

unfoldable pub checksum_update_mbuf : ℕ → List Mbuf → ℕ
unfolding checksum_update
checksum_update_mbuf c [] = c
checksum_update_mbuf c (m ∷ rest) =
    checksum_update_mbuf (checksum_update c m.bytes (mbuf_data m) (mbuf_len_one m)) rest

-- `~x` on 32 bits is 2^32 - 1 - x.
unfoldable pub checksum_finish : ℕ → ℕ
checksum_finish c =
    let folded = c / 2 ^ 16 + c % 2 ^ 16 in 2 ^ 32 - 1 - (folded + folded / 2 ^ 16) % 2 ^ 32
