-- ===== src/Bytes.antt =====
-- libs/common/string.c: copying, filling and comparing memory. A memory maps addresses to bytes.
pub mod Copy
pub mod Words
pub mod Strings
pub mod Text
pub mod Tests
use microkernel_book.Base.{ℕ, zero, suc, ◌+◌, ◌-◌, ◌%◌, ◌^◌, ◌==◌, leb, if◌then◌else◌, update}

abbrev pub Bytes : Type 0
Bytes = ℕ → ℕ

-- The loop of `memset` with `len` bytes left.
unfoldable pub memset : Bytes → ℕ → ℕ → ℕ → Bytes
memset m dst ch zero = m
memset m dst ch (suc len) = memset (update m dst (ch % 256)) (dst + 1) ch len

-- The loop of `memcpy`; the debug assertion on `len` is left out.
unfoldable pub memcpy : Bytes → ℕ → ℕ → ℕ → Bytes
memcpy m dst src zero = m
memcpy m dst src (suc len) = memcpy (update m dst (m src)) (dst + 1) (src + 1) len

-- The loop of `memmove` that runs down, from `d` and `s` on.
unfoldable pub move_down : Bytes → ℕ → ℕ → ℕ → Bytes
move_down m d s zero = m
move_down m d s (suc len) = move_down (update m d (m s)) (d - 1) (s - 1) len

unfoldable pub memmove : Bytes → ℕ → ℕ → ℕ → Bytes
unfolding memcpy move_down
memmove m dst src len =
    if leb dst src then memcpy m dst src len else move_down m (dst + len) (src + len) len

-- The loop of `memcmp`, and the difference of the bytes that it stops at, as a 32-bit pattern. The
-- loop also reads one byte of each side when `len` is 0, which has no effect here.
unfoldable pub memcmp : Bytes → ℕ → ℕ → ℕ → ℕ
memcmp m s1 s2 zero = 0
memcmp m s1 s2 (suc len) =
    let rest = memcmp m (s1 + 1) (s2 + 1) len in
    if m s1 == m s2 then rest else (m s1 + 2 ^ 32 - m s2) % 2 ^ 32
