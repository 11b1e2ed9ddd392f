-- ===== src/Dmabuf/Entries.antt =====
-- The entries that libs/user/dmabuf.c hands out and takes back.
use microkernel_book.Base.{
  ℕ, zero, suc, ◌+◌, ◌-◌, ◌*◌, ◌/◌, ◌%◌, ◌^◌, ◌≤◌, ◌<◌, ◌≡◌, ◌⊎◌, inl, inr, refl, sym, ap, ◌∙◌,
  Bool, true, false, none, some, ◌==◌, arith, update, Bool-cases,
}
use microkernel_book.Dmabuf.{Dmabuf, first_free, dmabuf_alloc, check_paddr, dmabuf_p2v, dmabuf_free}
use native.Mathlib.Nat.{add-mul-div_right, mul-le-mul_left, mul_comm, mul-suc, div-eq_of_lt}

-- The first entry from `i` on that is free, among `left` entries.
abbrev pub FirstFree : ℕ → ℕ → (ℕ → Bool) → ℕ → Type 0
FirstFree left i used j =
    (i ≤ j) × (j < i + left) × (used j ≡ false) × ((k : ℕ) → i ≤ k → k < j → used k ≡ true)

abbrev pub Full : ℕ → ℕ → (ℕ → Bool) → Type 0
Full left i used = (k : ℕ) → i ≤ k → k < i + left → used k ≡ true

first_free_lem :
    (left i : ℕ) (used : ℕ → Bool)
    → ((j : ℕ) × (first_free left i used ≡ some j) × FirstFree left i used j)
      ⊎ ((first_free left i used ≡ none) × Full left i used)
unfolding first_free
first_free_lem zero i used = inr (refl, λ k l h. absurd (omega arith))
first_free_lem (suc left) i used = elim (Bool-cases (used i)) [
  | inl taken ↦
      let past : (k : ℕ) → i ≤ k → (i + 1 ≤ k) ⊎ (used k ≡ true) = λ k l.
        elim (Bool-cases (k == i)) [
          | inl here ↦ inr (ap used (ground (arith, here)) ∙ taken)
          | inr other ↦ inl (ground (arith, other, l))
        ] in
      elim (first_free_lem left (i + 1) used) [
        | inl (j, e, (l, h, f, b)) ↦ inl (
          j,
          rw taken e,
          (
            omega arith,
            omega arith,
            f,
            λ k from to. elim (past k from) [ inl above ↦ b k above to | inr u ↦ u ],
          ),
        )
        | inr (e, f) ↦ inr (
          rw taken e,
          λ k from to. elim (past k from) [ inl above ↦ f k above (omega arith) | inr u ↦ u ],
        )
      ]
  | inr free ↦
      inl (i, rw free refl, (omega arith, omega arith, free, λ k from to. absurd (omega arith)))
]

-- The areas of the buffer lie below 2^32, and entries are not empty.
pub record IsBuffer (d : Dmabuf) : Type 0 where
  pub sized : 0 < d.entry_size
  pub physical : d.paddr + d.entry_size * d.num_entries < 2 ^ 32
  pub virtual : d.uaddr + d.entry_size * d.num_entries < 2 ^ 32

-- An entry ends inside the buffer.
entry_end : (size n i : ℕ) → i < n → i * size + size ≤ size * n
entry_end size n i h =
    let le : size * suc i ≤ size * n = mul-le-mul_left size (omega arith) in
    omega (arith, le, mul_comm i size, mul-suc size i)

entry_index : (size i o : ℕ) → o < size → (i * size + o) / size ≡ i
entry_index size i o h =
    ap (λ n. n / size) (omega arith)
    ∙ add-mul-div_right o i (omega arith)
    ∙ ap (λ n. n + i) (div-eq_of_lt h)
    ∙ omega arith

-- The entry `i` is handed out: its addresses are given, the bytes up to its end belong together at
-- the two addresses, and giving any of them back leaves the buffer as before.
abbrev pub Handed : Dmabuf → ℕ → Type 0
Handed d i =
    let offset = i * d.entry_size in
    let d' = record d { used = update d.used i true } in
    (offset + d.entry_size ≤ d.entry_size * d.num_entries)
    × (dmabuf_alloc d ≡ (some (d.uaddr + offset, d.paddr + offset), d'))
    × ((o : ℕ)
        → o < d.entry_size
        → (dmabuf_p2v d' (d.paddr + (offset + o)) ≡ some (d.uaddr + (offset + o)))
          × ((used : ℕ → Bool) × (dmabuf_free d' (d.paddr + (offset + o))
                ≡ some (record d { used = used }))
              × ((k : ℕ) → used k ≡ d.used k)))

-- The address of an offset inside the buffer does not wrap.
address : (a b : ℕ) → a + b < 2 ^ 32 → (a + b % 2 ^ 32) % 2 ^ 32 ≡ a + b
address a b h = omega arith

check_paddr-inside :
    (d : Dmabuf) (o : ℕ)
    → IsBuffer d
    → o < d.entry_size * d.num_entries
    → check_paddr d (d.paddr + o) ≡ true
unfolding check_paddr
check_paddr-inside d o b h =
    let p = b.physical in rw (address d.paddr (d.entry_size * d.num_entries) p) (ground (arith, h))

dmabuf_p2v-inside :
    (d : Dmabuf) (o : ℕ)
    → IsBuffer d
    → o < d.entry_size * d.num_entries
    → dmabuf_p2v d (d.paddr + o) ≡ some (d.uaddr + o)
unfolding dmabuf_p2v
dmabuf_p2v-inside d o b h =
    let v = b.virtual in rw (check_paddr-inside d o b h) (ap some (omega arith))

-- Giving back an entry that was free before.
dmabuf_free-inside :
    (d : Dmabuf) (i o : ℕ)
    → IsBuffer d
    → o < d.entry_size
    → i * d.entry_size + o < d.entry_size * d.num_entries
    → dmabuf_free d (d.paddr + (i * d.entry_size + o))
      ≡ some (record d { used = update d.used i false })
unfolding dmabuf_free
dmabuf_free-inside d i o b l h =
    let e : (d.paddr + (i * d.entry_size + o) - d.paddr) / d.entry_size ≡ i =
      ap (λ n. n / d.entry_size) (omega arith) ∙ entry_index d.entry_size i o l in
    rw (check_paddr-inside d (i * d.entry_size + o) b h, e) refl

update-back :
    (used : ℕ → Bool) (i k : ℕ) → used i ≡ false → update (update used i true) i false k ≡ used k
update-back used i k h = elim (Bool-cases (k == i)) [
  | inl here ↦ let e : used k ≡ used i = ap used (ground (arith, here)) in rw here (sym h ∙ sym e)
  | inr other ↦ rw other refl
]

-- `dmabuf_alloc` on a buffer with entries that are not empty and areas that end below 2^32: either
-- every entry is in use, and it gives NULL and changes nothing; or it takes the first free entry,
-- which ends inside the buffer, and gives its two addresses. Then `dmabuf_p2v` takes the device
-- address of each byte of the entry to its address for the task, and `dmabuf_free` of it leaves the
-- buffer with the same entries in use as before.
pub dmabuf_alloc_lem :
    (d : Dmabuf)
    → IsBuffer d
    → ((i : ℕ) × FirstFree d.num_entries 0 d.used i × Handed d i)
      ⊎ ((dmabuf_alloc d ≡ (none, d)) × Full d.num_entries 0 d.used)
unfolding dmabuf_alloc
dmabuf_alloc_lem d b = elim (first_free_lem d.num_entries 0 d.used) [
  | inl (i, e, w) ↦
      let (_, l, free, _) = w in
      let last = entry_end d.entry_size d.num_entries i (omega (arith, l)) in
      let d' : Dmabuf = record d { used = update d.used i true } in
      let b' : IsBuffer d' = record {
        sized = b.sized;
        physical = b.physical;
        virtual = b.virtual;
      } in
      let p = b.physical in
      let v = b.virtual in
      inl (
        i,
        w,
        (
          last,
          rw
              (
                e,
                address d.uaddr (i * d.entry_size) (omega arith),
                address d.paddr (i * d.entry_size) (omega arith),
              )
              refl,
          λ o h. (
            dmabuf_p2v-inside d' (i * d.entry_size + o) b' (omega arith),
            (
              update (update d.used i true) i false,
              dmabuf_free-inside d' i o b' h (omega arith),
              λ k. update-back d.used i k free,
            ),
          ),
        ),
      )
  | inr (e, f) ↦ inr (rw e refl, f)
]
