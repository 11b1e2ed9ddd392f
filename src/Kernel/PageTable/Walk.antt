-- ===== src/Kernel/PageTable/Walk.antt =====
-- The two-level tables of kernel/riscv32/vm.c, read as the hardware reads them.
use microkernel_book.Base.{
  ℕ, ◌+◌, ◌*◌, ◌/◌, ◌%◌, ◌^◌, ◌≤◌, ◌<◌, ◌≡◌, ◌≢◌, ◌⊎◌, inl, inr, refl, sym, arith, false, some,
  ◌==◌, ==_iff, Bool-cases, if◌then◌else◌, get_elem?,
}
use microkernel_book.Bytes.{Bytes}
use microkernel_book.Bytes.Words.{load32, store32, load32-store32_self, load32-store32_apart}
use microkernel_book.Kernel.State.{Kernel, Zone, page_size}
use microkernel_book.Kernel.Memory.{paddr_of}
use microkernel_book.Kernel.PageTable.{pte_index1, pte_index0, pte_paddr}

-- The entry of the first table.
abbrev pub first : Bytes → ℕ → ℕ → ℕ
first m base i = load32 m (base + 4 * i)

-- The entry that the hardware finds for an address; 0 if the first table has none.
abbrev pub lookup : Bytes → ℕ → ℕ → ℕ
lookup m base vaddr =
    if first m base (pte_index1 vaddr) == 0
    then 0
    else load32 m (pte_paddr (first m base (pte_index1 vaddr)) + 4 * pte_index0 vaddr)

-- A page of memory that is allocated, at the physical address `p`.
pub record IsUsed (k : Kernel) (p : ℕ) : Type 0 where
  pub n : ℕ
  pub i : ℕ
  pub zone : Zone
  pub is_zone : get_elem? k.zones n ≡ some zone
  pub within : i < zone.num_pages
  pub address : p ≡ paddr_of zone i
  pub counted : (zone.pages i).ref_count ≢ 0

-- The tables below `base` are pages in use, each of its own.
pub record IsTable (k : Kernel) (base : ℕ) : Type 0 where
  pub used : IsUsed k base
  pub aligned : base % page_size ≡ 0
  pub second :
      (i : ℕ)
      → i < 1024
      → first k.bytes base i ≢ 0
      → IsUsed k (pte_paddr (first k.bytes base i)) × (pte_paddr (first k.bytes base i) ≢ base)
  pub apart :
      (i j : ℕ)
      → i < 1024
      → j < 1024
      → i ≢ j
      → first k.bytes base i ≢ 0
      → first k.bytes base j ≢ 0
      → pte_paddr (first k.bytes base i) ≢ pte_paddr (first k.bytes base j)

-- Two pages with different addresses have no byte in common.
pub pages_apart :
    (p q a b : ℕ)
    → p % page_size ≡ 0
    → q % page_size ≡ 0
    → p ≢ q
    → a < 1024
    → b < 1024
    → (p + 4 * a + 4 ≤ q + 4 * b) ⊎ (q + 4 * b + 4 ≤ p + 4 * a)
pages_apart p q a b hp hq ne ha hb = ground arith

-- Different places of one table.
pub slots_apart : (p a b : ℕ) → a ≢ b → (p + 4 * a + 4 ≤ p + 4 * b) ⊎ (p + 4 * b + 4 ≤ p + 4 * a)
slots_apart p a b ne = ground arith

pub pte_paddr-aligned : (pte : ℕ) → pte_paddr pte % page_size ≡ 0
pte_paddr-aligned pte = omega arith

-- An address is its two indices and its offset.
pub indices :
    (v w : ℕ)
    → v < 2 ^ 32
    → w < 2 ^ 32
    → pte_index1 v ≡ pte_index1 w
    → pte_index0 v ≡ pte_index0 w
    → v / page_size ≡ w / page_size
indices v w hv hw e1 e0 = omega arith

-- The place of the entry for `v` in its second table.
abbrev pub slot_of : Bytes → ℕ → ℕ → ℕ
slot_of m base v = pte_paddr (first m base (pte_index1 v)) + 4 * pte_index0 v

module _ (m : Bytes) (base w : ℕ) where
  pub lookup_none : first m base (pte_index1 w) ≡ 0 → lookup m base w ≡ 0
  lookup_none e = ground (arith, e)

  pub lookup_there : first m base (pte_index1 w) ≢ 0 → lookup m base w ≡ load32 m (slot_of m base w)
  lookup_there ne =
      let e : (first m base (pte_index1 w) == 0) ≡ false = ground (arith, ne) in rw e refl

module _ (k : Kernel) (base : ℕ) (t : IsTable k base) where
  -- A write to the entry of a second table changes no entry of the first one.
  pub first-store :
      (i : ℕ) (v pte : ℕ)
      → i < 1024
      → first k.bytes base (pte_index1 v) ≢ 0
      → first
          (store32 k.bytes (pte_paddr (first k.bytes base (pte_index1 v)) + 4 * pte_index0 v) pte)
          base
          i
        ≡ first k.bytes base i
  first-store i v pte hi there = load32-store32_apart k.bytes _ pte (base + 4 * i) (
      pages_apart (pte_paddr (first k.bytes base (pte_index1 v))) base (pte_index0 v) i
        (pte_paddr-aligned _) t.aligned (t.second (pte_index1 v) (omega arith) there).1
        (omega arith) hi)

  -- The entries of two pages do not overlap.
  slot_of-apart :
      (v w : ℕ)
      → v < 2 ^ 32
      → w < 2 ^ 32
      → first k.bytes base (pte_index1 v) ≢ 0
      → first k.bytes base (pte_index1 w) ≢ 0
      → w / page_size ≢ v / page_size
      → (slot_of k.bytes base v + 4 ≤ slot_of k.bytes base w)
        ⊎ (slot_of k.bytes base w + 4 ≤ slot_of k.bytes base v)
  slot_of-apart v w hv hw there_v there_w ne = elim (Bool-cases (pte_index1 v == pte_index1 w)) [
    | inl same ↦
        let e = (==_iff (pte_index1 v) (pte_index1 w)).0 same in
        rw e (
          slots_apart (pte_paddr (first k.bytes base (pte_index1 w))) (pte_index0 v) (pte_index0 w)
            (λ e0. ne (indices w v hw hv (sym e) (sym e0))))
    | inr other ↦
        pages_apart (pte_paddr (first k.bytes base (pte_index1 v)))
          (pte_paddr (first k.bytes base (pte_index1 w))) (pte_index0 v) (pte_index0 w)
          (pte_paddr-aligned _) (pte_paddr-aligned _)
          (t.apart (pte_index1 v) (pte_index1 w) (omega arith) (omega arith)
            (λ e. ground (arith, other, e)) there_v there_w)
          (omega arith) (omega arith)
  ]

  -- And it changes the entry of one page.
  pub lookup-store :
      (v pte w : ℕ)
      → v < 2 ^ 32
      → w < 2 ^ 32
      → pte < 2 ^ 32
      → first k.bytes base (pte_index1 v) ≢ 0
      → lookup (store32 k.bytes (slot_of k.bytes base v) pte) base w
        ≡ (if w / page_size == v / page_size then pte else lookup k.bytes base w)
  lookup-store v pte w hv hw hp there =
      let e = first-store (pte_index1 w) v pte (omega arith) there in
      rw e (elim (Bool-cases (w / page_size == v / page_size)) [
        | inl same ↦
            let page = (==_iff (w / page_size) (v / page_size)).0 same in
            let e1 : pte_index1 w ≡ pte_index1 v = omega (arith, page) in
            let e0 : pte_index0 w ≡ pte_index0 v = omega (arith, page) in
            let no_zero : (first k.bytes base (pte_index1 v) == 0) ≡ false =
              ground (arith, there) in
            rw (same, e1, e0, no_zero) (load32-store32_self k.bytes (slot_of k.bytes base v) pte hp)
        | inr other ↦ rw other (elim (Bool-cases (first k.bytes base (pte_index1 w) == 0)) [
          | inl none_there ↦ rw none_there refl
          | inr some_there ↦ rw some_there (
              load32-store32_apart k.bytes (slot_of k.bytes base v) pte (slot_of k.bytes base w) (
                slot_of-apart v w hv hw there (λ z. ground (arith, some_there, z))
                  (λ p. ground (arith, other, p))))
        ])
      ])
