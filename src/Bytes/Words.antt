-- ===== src/Bytes/Words.antt =====
-- 32-bit words in a memory of bytes, the low byte first, as riscv32 reads and writes them.
use microkernel_book.Base.{ℕ, ◌+◌, ◌*◌, ◌/◌, ◌%◌, ◌^◌, ◌≤◌, ◌<◌, ◌≡◌, ◌⊎◌, arith, update}
use microkernel_book.Bytes.{Bytes}

unfoldable pub load32 : Bytes → ℕ → ℕ
load32 m a = m a + m (a + 1) * 256 + m (a + 2) * 65536 + m (a + 3) * 16777216

unfoldable pub store32 : Bytes → ℕ → ℕ → Bytes
store32 m a v =
    update
      (update (update (update m a (v % 256)) (a + 1) (v / 256 % 256)) (a + 2) (v / 65536 % 256))
      (a + 3) (v / 16777216 % 256)

pub store32_other : (m : Bytes) (a v b : ℕ) → (b < a) ⊎ (a + 4 ≤ b) → store32 m a v b ≡ m b
unfolding store32
store32_other m a v b h = ground (arith, h)

pub load32-store32_self : (m : Bytes) (a v : ℕ) → v < 2 ^ 32 → load32 (store32 m a v) a ≡ v
unfolding load32 store32
load32-store32_self m a v h =
    let e0 : store32 m a v a ≡ v % 256 = ground arith in
    let e1 : store32 m a v (a + 1) ≡ v / 256 % 256 = ground arith in
    let e2 : store32 m a v (a + 2) ≡ v / 65536 % 256 = ground arith in
    let e3 : store32 m a v (a + 3) ≡ v / 16777216 % 256 = ground arith in
    omega (arith, e0, e1, e2, e3)

pub load32-congr :
    (m n : Bytes) (a : ℕ) → ((b : ℕ) → a ≤ b → b < a + 4 → n b ≡ m b) → load32 n a ≡ load32 m a
unfolding load32
load32-congr m n a h = omega (
  arith,
  h a (omega arith) (omega arith),
  h (a + 1) (omega arith) (omega arith),
  h (a + 2) (omega arith) (omega arith),
  h (a + 3) (omega arith) (omega arith),
)

pub load32-store32_apart :
    (m : Bytes) (a v b : ℕ) → (a + 4 ≤ b) ⊎ (b + 4 ≤ a) → load32 (store32 m a v) b ≡ load32 m b
load32-store32_apart m a v b h =
    load32-congr m (store32 m a v) b
      λ c from to. store32_other m a v c (ground (arith, h, from, to))
