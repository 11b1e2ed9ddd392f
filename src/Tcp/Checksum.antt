-- ===== src/Tcp/Checksum.antt =====
-- servers/tcpip/checksum.h: what the folded sum is.
use microkernel_book.Base.{ℕ, ◌+◌, ◌%◌, ◌^◌, ◌<◌, ◌≡◌, arith}
use microkernel_book.Tcp.Wire.{checksum_finish}

-- The 16 bits that `checksum_finish` makes of a sum complete it to a multiple of 0xffff.
pub checksum_finish_lem : (c : ℕ) → c < 2 ^ 32 → (c + checksum_finish c % 2 ^ 16) % 0xffff ≡ 0
unfolding checksum_finish
checksum_finish_lem c h = omega arith
