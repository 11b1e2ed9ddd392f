-- ===== src/Bytes/Copy.antt =====
-- What the loops of string.c leave in memory.
use microkernel_book.Base.{
  ℕ, zero, suc, ◌+◌, ◌-◌, ◌%◌, ◌≤◌, ◌<◌, ◌≡◌, ◌⊎◌, ◌↔◌, inl, inr, refl, ap, ◌∙◌, ◌==◌, leb,
  if◌then◌else◌, arith, update, Bool-cases,
}
use microkernel_book.Bytes.{Bytes, memset, memcpy, move_down, memmove, memcmp}

-- The memory after a correct copy of `len` bytes.
abbrev pub copied : Bytes → ℕ → ℕ → ℕ → ℕ → ℕ
copied m dst src len a =
    if leb dst a then (if leb (dst + len) a then m a else m (src + (a - dst))) else m a

-- The memory with `len` bytes filled.
abbrev pub filled : Bytes → ℕ → ℕ → ℕ → ℕ → ℕ
filled m dst ch len a = if leb dst a then (if leb (dst + len) a then m a else ch % 256) else m a

-- `memset` writes the low byte of `ch` to exactly the `len` bytes from `dst` on.
pub memset-filled :
    (len : ℕ) (m : Bytes) (dst ch a : ℕ) → memset m dst ch len a ≡ filled m dst ch len a
unfolding memset
memset-filled zero m dst ch a = ground arith
memset-filled (suc len) m dst ch a =
    memset-filled len (update m dst (ch % 256)) (dst + 1) ch a ∙ ground arith

-- `memcpy` copies exactly `len` bytes and changes no other byte, if the destination does not start
-- inside the source behind its start.
pub memcpy-copied :
    (len : ℕ) (m : Bytes) (dst src a : ℕ)
    → (dst ≤ src) ⊎ (src + len ≤ dst)
    → memcpy m dst src len a ≡ copied m dst src len a
unfolding memcpy
memcpy-copied zero m dst src a h = ground arith
memcpy-copied (suc len) m dst src a h =
    memcpy-copied len (update m dst (m src)) (dst + 1) (src + 1) a (ground (arith, h))
    ∙ elim (Bool-cases (leb (dst + 1) a)) [
      | inl above ↦
          let e : m (src + 1 + (a - (dst + 1))) ≡ m (src + (a - dst)) = ap m (ground arith) in
          ground (arith, h, e)
      | inr below ↦ elim (Bool-cases (a == dst)) [
        | inl first ↦
            let e : m (src + (a - dst)) ≡ m src = ap m (ground arith) in ground (arith, h, e)
        | inr other ↦ ground (arith, h)
      ]
    ]

-- The loop that runs down writes the `len` bytes behind `dst`, from the bytes behind `src`.
move_down-copied :
    (len : ℕ) (m : Bytes) (dst src a : ℕ)
    → src < dst
    → move_down m (dst + len) (src + len) len a ≡ copied m (dst + 1) (src + 1) len a
unfolding move_down
move_down-copied zero m dst src a h = ground arith
move_down-copied (suc len) m dst src a h =
    let m' : Bytes = update m (dst + suc len) (m (src + suc len)) in
    let d : dst + suc len - 1 ≡ dst + len = omega arith in
    let s : src + suc len - 1 ≡ src + len = omega arith in
    let step : move_down m' (dst + suc len - 1) (src + suc len - 1) len a
        ≡ move_down m' (dst + len) (src + len) len a =
      rw (d, s) refl in
    step ∙ move_down-copied len m' dst src a h ∙ elim (Bool-cases (a == dst + suc len)) [
      | inl last ↦
          let e : m (src + 1 + (a - (dst + 1))) ≡ m (src + suc len) = ap m (ground arith) in
          ground (arith, h, e)
      | inr other ↦ ground (arith, h)
    ]

-- `memmove` to a place that is not behind the source is a correct copy, also if the two overlap. To
-- a place behind the source, it copies the `len` bytes behind `src` to the bytes behind `dst`: one
-- byte too high.
pub memmove-copied :
    (len : ℕ) (m : Bytes) (dst src a : ℕ)
    → memmove m dst src len a
      ≡ (if leb dst src then copied m dst src len a else copied m (dst + 1) (src + 1) len a)
unfolding memmove
memmove-copied len m dst src a = elim (Bool-cases (leb dst src)) [
  | inl front ↦ rw front (memcpy-copied len m dst src a (inl (ground arith)))
  | inr behind ↦ rw behind (move_down-copied len m dst src a (ground arith))
]

-- The bytes of two areas are the same.
abbrev pub SameBytes : Bytes → ℕ → ℕ → ℕ → Type 0
SameBytes m s1 s2 len = (i : ℕ) → i < len → m (s1 + i) ≡ m (s2 + i)

pub memcmp-tail :
    (m : Bytes) (s1 s2 len : ℕ) → SameBytes m s1 s2 (suc len) → SameBytes m (s1 + 1) (s2 + 1) len
memcmp-tail m s1 s2 len h i l = ap m (omega arith) ∙ h (i + 1) (omega arith) ∙ ap m (omega arith)

pub SameBytes-cons :
    (m : Bytes) (s1 s2 len : ℕ)
    → m s1 ≡ m s2
    → SameBytes m (s1 + 1) (s2 + 1) len
    → SameBytes m s1 s2 (suc len)
SameBytes-cons m s1 s2 len e h i l = elim (Bool-cases (i == 0)) [
  | inl first ↦ ap m (ground arith) ∙ e ∙ ap m (ground arith)
  | inr later ↦ ap m (ground arith) ∙ h (i - 1) (ground arith) ∙ ap m (ground arith)
]

-- In a memory of bytes, `memcmp` returns 0 exactly on areas with the same bytes.
pub memcmp_iff :
    (len : ℕ) (m : Bytes) (s1 s2 : ℕ)
    → ((a : ℕ) → m a < 256)
    → (memcmp m s1 s2 len ≡ 0) ↔ SameBytes m s1 s2 len
unfolding memcmp
memcmp_iff zero m s1 s2 b = (λ h i l. absurd (omega arith), λ h. refl)
memcmp_iff (suc len) m s1 s2 b = elim (Bool-cases (m s1 == m s2)) [
  | inl same ↦ (
    λ h.
        SameBytes-cons m s1 s2 len (ground (arith, same))
          ((memcmp_iff len m (s1 + 1) (s2 + 1) b).0 (ground (arith, h, same))),
    λ h. rw same ((memcmp_iff len m (s1 + 1) (s2 + 1) b).1 (memcmp-tail m s1 s2 len h)),
  )
  | inr other ↦ (
    λ h. absurd (ground (arith, h, other, b s1, b s2)),
    λ h.
        let e : m s1 ≡ m s2 = ap m (omega arith) ∙ h 0 (omega arith) ∙ ap m (omega arith) in
        absurd (ground (arith, other, e)),
  )
]
