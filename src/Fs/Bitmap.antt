-- ===== src/Fs/Bitmap.antt =====
-- `alloc_block` of servers/fs/fs.c takes the lowest free block.
use microkernel_book.Base.{
  ℕ, zero, suc, ◌+◌, ◌*◌, ◌/◌, ◌%◌, ◌^◌, ◌≤◌, ◌<◌, ◌≡◌, ◌≢◌, ◌⊎◌, inl, inr, refl, ap, ◌∙◌, arith,
  List, [], ◌∷◌, ◌++◌, ◌==◌, ltb, ==_iff, has, Bool-cases, none, some, if◌then◌else◌, get_elem?,
  false, update_self, update_ne,
}
use microkernel_book.Bytes.{Bytes}
use microkernel_book.Fs.State.{Fs, Block, done, set_content, block_size}
use microkernel_book.Fs.Cache.{block_mark_as_dirty}
use microkernel_book.Fs.Ops.{bit_of, find_bit, find_free_bit, set_bit, bitmap_loop, alloc_block}

-- Bit `n` of a bitmap block.
abbrev pub bit : Bytes → ℕ → ℕ
bit m n = bit_of (m (n / 8)) (n % 8)

-- The first bit that is 0 among the bits from `from` to `to`.
pub record IsLowest (m : Bytes) (from to n : ℕ) : Type 0 where
  pub after : from ≤ n
  pub before : n < to
  pub free : bit m n ≡ 0
  pub lower : (q : ℕ) → from ≤ q → q < n → bit m q ≢ 0

abbrev pub AllTaken : Bytes → ℕ → ℕ → Type 0
AllTaken m from to = (q : ℕ) → from ≤ q → q < to → bit m q ≢ 0

-- In a byte.
find_bit-cases :
    (rounds byte k : ℕ)
    → ((r : ℕ) × (find_bit rounds byte k ≡ some r)
        × (k ≤ r)
        × (r < k + rounds)
        × (bit_of byte r ≡ 0)
        × ((q : ℕ) → k ≤ q → q < r → bit_of byte q ≢ 0))
      ⊎ ((find_bit rounds byte k ≡ none) × ((q : ℕ) → k ≤ q → q < k + rounds → bit_of byte q ≢ 0))
unfolding find_bit
find_bit-cases zero byte k = inr (refl, λ q from to. absurd (omega arith))
find_bit-cases (suc rounds) byte k = elim (Bool-cases (bit_of byte k == 0)) [
  | inl free ↦ inl (
    k,
    rw free refl,
    omega arith,
    omega arith,
    (==_iff _ 0).0 free,
    λ q from to. absurd (omega arith),
  )
  | inr taken ↦
      let here : bit_of byte k ≢ 0 = λ z. cc (taken, (==_iff (bit_of byte k) 0).1 z) in
      elim (find_bit-cases rounds byte (k + 1)) [
        | inl (r, e, lo, hi, free, lower) ↦ inl (
          r,
          rw taken e,
          omega (arith, lo),
          omega (arith, hi),
          free,
          λ q from to. elim (Bool-cases (q == k)) [
            | inl same ↦ rw ((==_iff q k).0 same) here
            | inr other ↦ lower q (ground (arith, other)) to
          ],
        )
        | inr (e, all) ↦ inr (
          rw taken e,
          λ q from to. elim (Bool-cases (q == k)) [
            | inl same ↦ rw ((==_iff q k).0 same) here
            | inr other ↦ all q (ground (arith, other)) (omega (arith, to))
          ],
        )
      ]
]

-- In the bytes from `j` on.
find_free_bit-cases :
    (rounds : ℕ) (m : Bytes) (j : ℕ)
    → ((n : ℕ) × (find_free_bit rounds m j ≡ some n) × IsLowest m (j * 8) ((j + rounds) * 8) n)
      ⊎ ((find_free_bit rounds m j ≡ none) × AllTaken m (j * 8) ((j + rounds) * 8))
unfolding find_free_bit
find_free_bit-cases zero m j = inr (refl, λ q from to. absurd (omega arith))
find_free_bit-cases (suc rounds) m j =
    let byte_of = λ (q : ℕ) (from : j * 8 ≤ q) (to : q < (j + 1) * 8).
      let e : q / 8 ≡ j = omega (arith, from, to) in e in
    elim (find_bit-cases 8 (m j) 0) [
      | inl (r, e, lo, hi, free, lower) ↦ inl (
        j * 8 + r,
        rw e refl,
        record {
          after = omega arith;
          before = omega (arith, hi);
          free =
              let d : (j * 8 + r) / 8 ≡ j = omega (arith, hi) in
              let k : (j * 8 + r) % 8 ≡ r = omega (arith, hi) in rw (d, k) free;
          lower = λ q from to.
              rw (byte_of q from (omega (arith, to, hi)))
                (lower (q % 8) (omega arith) (omega (arith, from, to, hi)));
        },
      )
      | inr (e, all) ↦
          let here = λ (q : ℕ) (from : j * 8 ≤ q) (to : q < (j + 1) * 8).
            let g : bit m q ≢ 0 =
              rw (byte_of q from to) (all (q % 8) (omega arith) (omega arith)) in
            g in
          elim (find_free_bit-cases rounds m (j + 1)) [
            | inl (n, e', v) ↦ inl (
              n,
              rw (e, e') refl,
              record {
                after = omega (arith, v.after);
                before = omega (arith, v.before);
                free = v.free;
                lower = λ q from to. elim (Bool-cases (ltb q ((j + 1) * 8))) [
                  | inl near ↦ here q from (ground (arith, near))
                  | inr far ↦ v.lower q (ground (arith, far)) to
                ];
              },
            )
            | inr (e', rest) ↦ inr (
              rw (e, e') refl,
              λ q from to. elim (Bool-cases (ltb q ((j + 1) * 8))) [
                | inl near ↦ here q from (ground (arith, near))
                | inr far ↦ rest q (ground (arith, far)) (omega (arith, to))
              ],
            )
          ]
    ]

-- The state behind the choice of bit `n` of the bitmap block `b`.
abbrev taken : ℕ → ℕ → Fs → Fs
taken b n s =
    let s1 = set_content b (set_bit n) s in
    if has b s1.dirty_blocks then s1 else record s1 { dirty_blocks = s1.dirty_blocks ++ b ∷ [] }

-- Bit `n` of the block `b` is set, and the block is dirty; nothing else changes.
pub record IsTaken (b n : ℕ) (s s' : Fs) : Type 0 where
  pub set : bit (s'.blocks b).content n ≡ 1
  pub other_bits : (q : ℕ) → q ≢ n → bit (s'.blocks b).content q ≡ bit (s.blocks b).content q
  pub same_number : (s'.blocks b).index ≡ (s.blocks b).index
  pub other_blocks : (c : ℕ) → c ≢ b → s'.blocks c ≡ s.blocks c
  pub dirty :
      s'.dirty_blocks ≡ (if has b s.dirty_blocks then s.dirty_blocks else s.dirty_blocks ++ b ∷ [])
  pub cache : (s'.cached_blocks ≡ s.cached_blocks) × (s'.bitmap_blocks ≡ s.bitmap_blocks)
  pub no_requests : s'.log ≡ s.log

below_eight :
    (P : ℕ → Type 0) → P 0 → P 1 → P 2 → P 3 → P 4 → P 5 → P 6 → P 7 → (k : ℕ) → k < 8 → P k
below_eight P a b c d e f g h zero l = a
below_eight P a b c d e f g h (suc zero) l = b
below_eight P a b c d e f g h (suc (suc zero)) l = c
below_eight P a b c d e f g h (suc (suc (suc zero))) l = d
below_eight P a b c d e f g h (suc (suc (suc (suc zero)))) l = e
below_eight P a b c d e f g h (suc (suc (suc (suc (suc zero))))) l = f
below_eight P a b c d e f g h (suc (suc (suc (suc (suc (suc zero)))))) l = g
below_eight P a b c d e f g h (suc (suc (suc (suc (suc (suc (suc zero))))))) l = h
below_eight P a b c d e f g h (suc (suc (suc (suc (suc (suc (suc (suc k)))))))) l =
    absurd (omega arith)

-- Adding the value of a bit that is 0 sets it and no other bit.
abbrev SetsBit : ℕ → ℕ → ℕ → Type 0
SetsBit byte k q =
    bit_of byte k ≡ 0 → bit_of (byte + 2 ^ k) q ≡ (if q == k then 1 else bit_of byte q)

module _ (byte : ℕ) where
  sets_bit0 : (q : ℕ) → q < 8 → SetsBit byte 0 q
  sets_bit0 =
      below_eight (SetsBit byte 0) (λ h. omega (arith, h)) (λ h. omega (arith, h))
        (λ h. omega (arith, h)) (λ h. omega (arith, h)) (λ h. omega (arith, h))
        (λ h. omega (arith, h)) (λ h. omega (arith, h)) (λ h. omega (arith, h))

  sets_bit1 : (q : ℕ) → q < 8 → SetsBit byte 1 q
  sets_bit1 =
      below_eight (SetsBit byte 1) (λ h. omega (arith, h)) (λ h. omega (arith, h))
        (λ h. omega (arith, h)) (λ h. omega (arith, h)) (λ h. omega (arith, h))
        (λ h. omega (arith, h)) (λ h. omega (arith, h)) (λ h. omega (arith, h))

  sets_bit2 : (q : ℕ) → q < 8 → SetsBit byte 2 q
  sets_bit2 =
      below_eight (SetsBit byte 2) (λ h. omega (arith, h)) (λ h. omega (arith, h))
        (λ h. omega (arith, h)) (λ h. omega (arith, h)) (λ h. omega (arith, h))
        (λ h. omega (arith, h)) (λ h. omega (arith, h)) (λ h. omega (arith, h))

  sets_bit3 : (q : ℕ) → q < 8 → SetsBit byte 3 q
  sets_bit3 =
      below_eight (SetsBit byte 3) (λ h. omega (arith, h)) (λ h. omega (arith, h))
        (λ h. omega (arith, h)) (λ h. omega (arith, h)) (λ h. omega (arith, h))
        (λ h. omega (arith, h)) (λ h. omega (arith, h)) (λ h. omega (arith, h))

  sets_bit4 : (q : ℕ) → q < 8 → SetsBit byte 4 q
  sets_bit4 =
      below_eight (SetsBit byte 4) (λ h. omega (arith, h)) (λ h. omega (arith, h))
        (λ h. omega (arith, h)) (λ h. omega (arith, h)) (λ h. omega (arith, h))
        (λ h. omega (arith, h)) (λ h. omega (arith, h)) (λ h. omega (arith, h))

  sets_bit5 : (q : ℕ) → q < 8 → SetsBit byte 5 q
  sets_bit5 =
      below_eight (SetsBit byte 5) (λ h. omega (arith, h)) (λ h. omega (arith, h))
        (λ h. omega (arith, h)) (λ h. omega (arith, h)) (λ h. omega (arith, h))
        (λ h. omega (arith, h)) (λ h. omega (arith, h)) (λ h. omega (arith, h))

  sets_bit6 : (q : ℕ) → q < 8 → SetsBit byte 6 q
  sets_bit6 =
      below_eight (SetsBit byte 6) (λ h. omega (arith, h)) (λ h. omega (arith, h))
        (λ h. omega (arith, h)) (λ h. omega (arith, h)) (λ h. omega (arith, h))
        (λ h. omega (arith, h)) (λ h. omega (arith, h)) (λ h. omega (arith, h))

  sets_bit7 : (q : ℕ) → q < 8 → SetsBit byte 7 q
  sets_bit7 =
      below_eight (SetsBit byte 7) (λ h. omega (arith, h)) (λ h. omega (arith, h))
        (λ h. omega (arith, h)) (λ h. omega (arith, h)) (λ h. omega (arith, h))
        (λ h. omega (arith, h)) (λ h. omega (arith, h)) (λ h. omega (arith, h))

  sets_bit : (k : ℕ) → k < 8 → (q : ℕ) → q < 8 → SetsBit byte k q
  sets_bit =
      below_eight (λ k. (q : ℕ) → q < 8 → SetsBit byte k q) sets_bit0 sets_bit1 sets_bit2 sets_bit3
        sets_bit4 sets_bit5 sets_bit6 sets_bit7

set_bit-bit :
    (m : Bytes) (n q : ℕ) → bit m n ≡ 0 → bit (set_bit n m) q ≡ (if q == n then 1 else bit m q)
set_bit-bit m n q free = elim (Bool-cases (q / 8 == n / 8)) [
  | inl same ↦
      let row = sets_bit (m (n / 8)) (n % 8) (omega arith) (q % 8) (omega arith) free in
      let e : q / 8 ≡ n / 8 = (==_iff _ _).0 same in
      let b : (q % 8 == n % 8) ≡ (q == n) = ground (arith, e) in rw (same, ← b, e) row
  | inr other ↦ let ne : (q == n) ≡ false = ground (arith, other) in rw (other, ne) refl
]

module _ (b n : ℕ) (s : Fs) where
  abbrev dirtied : List ℕ
  dirtied = if has b s.dirty_blocks then s.dirty_blocks else s.dirty_blocks ++ b ∷ []

  abbrev changed : Fs
  changed = record (set_content b (set_bit n) s) { dirty_blocks = dirtied }

  taken-changed : taken b n s ≡ changed
  taken-changed = elim (Bool-cases (has b s.dirty_blocks)) [
    | inl listed ↦ rw listed refl
    | inr absent ↦ rw absent refl
  ]

  changed-here : changed.blocks b ≡ record (s.blocks b) { content = set_bit n (s.blocks b).content }
  changed-here = update_self s.blocks b _

  taken-IsTaken : bit (s.blocks b).content n ≡ 0 → IsTaken b n s (taken b n s)
  taken-IsTaken free = rw taken-changed (record {
    set =
        ap (λ (c : Block). bit c.content n) changed-here
        ∙ set_bit-bit (s.blocks b).content n n free
        ∙ ground arith;
    other_bits = λ q ne.
        ap (λ (c : Block). bit c.content q) changed-here
        ∙ set_bit-bit (s.blocks b).content n q free
        ∙ ground (arith, ne);
    same_number = ap (λ (c : Block). c.index) changed-here;
    other_blocks = λ c ne. update_ne s.blocks b c _ ne;
    dirty = refl;
    cache = (refl, refl);
    no_requests = refl;
  })

-- The lowest free bit of the bitmap blocks `bs` is bit `n` of the block at place `j`.
pub record IsFirst (s : Fs) (bs : List ℕ) (j b n : ℕ) : Type 0 where
  pub block : get_elem? bs j ≡ some b
  pub bit_free : IsLowest (s.blocks b).content 0 (block_size * 8) n
  pub full :
      (l c : ℕ) → l < j → get_elem? bs l ≡ some c → AllTaken (s.blocks c).content 0 (block_size * 8)

all_full :
    (s : Fs) (b : ℕ) (bs : List ℕ) (P : ℕ → Type 0)
    → AllTaken (s.blocks b).content 0 (block_size * 8)
    → ((l c : ℕ)
        → P (suc l)
        → get_elem? bs l ≡ some c
        → AllTaken (s.blocks c).content 0 (block_size * 8))
    → (l c : ℕ) → P l
    → get_elem? (b ∷ bs) l ≡ some c
    → AllTaken (s.blocks c).content 0 (block_size * 8)
all_full s b bs P first rest zero c p g = let same : b ≡ c = cc g in rw (← same) first
all_full s b bs P first rest (suc l) c p g = rest l c p g

bitmap_loop-cases :
    (bs : List ℕ) (i : ℕ) (s : Fs)
    → ((j b n : ℕ) × IsFirst s bs j b n
        × (bitmap_loop bs i s ≡ done ((6 + ((i + j) * block_size * 8 + n)) % 2 ^ 16) (taken b n s)))
      ⊎ ((bitmap_loop bs i s ≡ done 0 s)
          × ((l c : ℕ)
              → get_elem? bs l ≡ some c
              → AllTaken (s.blocks c).content 0 (block_size * 8)))
unfolding bitmap_loop block_mark_as_dirty
bitmap_loop-cases [] i s = inr (refl, λ l c e. cc)
bitmap_loop-cases (b ∷ bs) i s = elim (find_free_bit-cases block_size (s.blocks b).content 0) [
  | inl (n, e, v) ↦ inl (
    0,
    b,
    n,
    record { block = refl; bit_free = v; full = λ l c h. absurd (omega (arith, h)) },
    rw e (ap (λ t. done ((6 + (t * block_size * 8 + n)) % 2 ^ 16) (taken b n s)) (omega arith)),
  )
  | inr (e, all) ↦ elim (bitmap_loop-cases bs (i + 1) s) [
    | inl (j, c, n, v, r) ↦ inl (
      suc j,
      c,
      n,
      record {
        block = v.block;
        bit_free = v.bit_free;
        full = all_full s b bs (λ l. l < suc j) all (λ l d h g. v.full l d (omega (arith, h)) g);
      },
      rw e (
          r ∙ ap (λ t. done ((6 + (t * block_size * 8 + n)) % 2 ^ 16) (taken c n s)) (omega arith)),
    )
    | inr (r, rest) ↦
        inr (rw e r, λ l c g. all_full s b bs (λ _. Unit {0}) all (λ l d _ g. rest l d g) l c tt g)
  ]
]

-- `alloc_block` takes the lowest bit that is 0 in the bitmap blocks and gives 6 and its place, in
-- 16 bits; the bit is 1 afterwards and its bitmap block is dirty, and no other bit, block or part
-- of the cache changes. If all bits are 1, it gives 0 and changes nothing.
pub alloc_block_lem :
    (s : Fs)
    → ((j b n : ℕ) × (s' : Fs) × IsFirst s s.bitmap_blocks j b n
        × (alloc_block s ≡ done ((6 + (j * block_size * 8 + n)) % 2 ^ 16) s')
        × IsTaken b n s s')
      ⊎ ((alloc_block s ≡ done 0 s)
          × ((l c : ℕ)
              → get_elem? s.bitmap_blocks l ≡ some c
              → AllTaken (s.blocks c).content 0 (block_size * 8)))
unfolding alloc_block
alloc_block_lem s = elim (bitmap_loop-cases s.bitmap_blocks 0 s) [
  | inl (j, b, n, v, e) ↦ inl (
    j,
    b,
    n,
    taken b n s,
    v,
    e ∙ ap (λ t. done ((6 + (t * block_size * 8 + n)) % 2 ^ 16) (taken b n s)) (omega arith),
    taken-IsTaken b n s v.bit_free.free,
  )
  | inr full ↦ inr full
]
