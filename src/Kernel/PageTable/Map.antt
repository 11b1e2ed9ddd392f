-- ===== src/Kernel/PageTable/Map.antt =====
-- `arch_vm_map` and `riscv32_is_mapped` of kernel/riscv32/vm.c.
use microkernel_book.Base.{
  ℕ, ◌+◌, ◌*◌, ◌/◌, ◌%◌, ◌^◌, ◌≤◌, ◌<◌, ◌≡◌, ◌≢◌, ◌⊎◌, inl, inr, refl, sym, ap, ◌∙◌, arith, Bool,
  true, ◌==◌, ==_iff, Bool-cases, if◌then◌else◌,
}
use microkernel_book.Bytes.Words.{load32, store32}
use microkernel_book.Kernel.State.{Kernel, page_size, u32_mod, ok, err, no_memory, already_exists}
use microkernel_book.Kernel.Monad.{M, done}
use microkernel_book.Kernel.PageTable.{
  pte_index1, pte_index0, pte_v, have_table, walk, arch_vm_map, page_attrs_to_pte_flags, flag_of,
  riscv32_is_mapped,
}
use microkernel_book.Kernel.PageTable.Walk.{
  first, lookup, slot_of, IsTable, lookup-store, first-store, lookup_none, lookup_there,
}
use microkernel_book.Kernel.PageTable.Fresh.{IsMemory, NoFreePage}
use microkernel_book.Kernel.PageTable.Tables.{have_table_lem, used_bytes}

flag_of-le : (attrs flag : ℕ) → flag_of attrs flag ≤ flag
flag_of-le attrs flag = ground arith

flags_bound : (attrs : ℕ) → page_attrs_to_pte_flags attrs ≤ 30
unfolding page_attrs_to_pte_flags
flags_bound attrs =
    omega (arith, flag_of-le attrs 2, flag_of-le attrs 4, flag_of-le attrs 8, flag_of-le attrs 16)

-- A write to an entry of a second table leaves the tables in order.
store-IsTable :
    (k : Kernel) (base v pte : ℕ)
    → IsTable k base
    → first k.bytes base (pte_index1 v) ≢ 0
    → IsTable (record k { bytes = store32 k.bytes (slot_of k.bytes base v) pte }) base
store-IsTable k base v pte t there = record {
  used = used_bytes _ t.used;
  aligned = t.aligned;
  second = λ i hi there_i.
      let e = first-store k base t i v pte hi there in
      let r = t.second i hi (λ z. there_i (e ∙ z)) in rw e (used_bytes _ r.0, r.1);
  apart = λ i j hi hj ne there_i there_j.
      let e = first-store k base t i v pte hi there in
      let e' = first-store k base t j v pte hj there in
      rw (e, e') (t.apart i j hi hj ne (λ z. there_i (e ∙ z)) (λ z. there_j (e' ∙ z)));
}

-- The walk is the read of the entry's place behind `have_table`.
pub walk-have_table :
    (k k' : Kernel) (base vaddr : ℕ) (alloc : Bool)
    → vaddr % page_size ≡ 0
    → have_table (base + 4 * pte_index1 vaddr) alloc k ≡ done (ok tt) k'
    → walk base vaddr alloc k ≡ done (ok (slot_of k'.bytes base vaddr)) k'
unfolding walk
walk-have_table k k' base vaddr alloc al e = rw (al, e) refl

pub walk-err :
    (k k' : Kernel) (base vaddr : ℕ) (alloc : Bool) (e : _)
    → vaddr % page_size ≡ 0
    → have_table (base + 4 * pte_index1 vaddr) alloc k ≡ done (err e) k'
    → walk base vaddr alloc k ≡ done (err e) k'
unfolding walk
walk-err k k' base vaddr alloc e al h = rw (al, h) refl

-- The entry that `arch_vm_map` writes.
abbrev pub new_pte : ℕ → ℕ → ℕ
new_pte paddr attrs = paddr / 2 ^ 12 * 2 ^ 10 + (page_attrs_to_pte_flags attrs + pte_v)

-- What a mapping has done to the tables.
pub record IsMapped (k k' : Kernel) (base vaddr pte : ℕ) : Type 0 where
  pub table : IsTable k' base
  pub entry :
      (w : ℕ)
      → w < 2 ^ 32
      → lookup k'.bytes base w
        ≡ (if w / page_size == vaddr / page_size then pte else lookup k.bytes base w)

module _ (send_ipi : M (Unit {0})) (k : Kernel) (base vaddr paddr attrs : ℕ) (mem : IsMemory k)
    (t : IsTable k base) (quiet : (k : Kernel) → send_ipi k ≡ done tt k)
    (v_aligned : vaddr % page_size ≡ 0) (v_below : vaddr < 2 ^ 32)
    (p_aligned : paddr % page_size ≡ 0) (p_below : paddr < 2 ^ 32) where
  -- `arch_vm_map` of aligned 32-bit addresses, with tables in order, zones in order and not at
  -- address 0, and an IPI that changes nothing here, ends without a failed assertion. Either there
  -- is no second table for the address, no zone of free memory has a free page, and it is refused
  -- with ERR_NO_MEMORY, the kernel unchanged; or the page is mapped and the call is refused with
  -- ERR_ALREADY_EXISTS, the kernel unchanged; or the page is not mapped, and afterwards the tables
  -- are in order and map the page to the new entry and every other page as before.
  pub arch_vm_map_lem :
      ((first k.bytes base (pte_index1 vaddr) ≡ 0)
        × NoFreePage k
        × (arch_vm_map send_ipi base vaddr paddr attrs k ≡ done (err no_memory) k))
      ⊎ ((lookup k.bytes base vaddr % 2 ≡ 1)
          × (arch_vm_map send_ipi base vaddr paddr attrs k ≡ done (err already_exists) k))
      ⊎ ((lookup k.bytes base vaddr % 2 ≡ 0)
          × ((k' : Kernel) × (arch_vm_map send_ipi base vaddr paddr attrs k ≡ done (ok tt) k')
              × IsMapped k k' base vaddr (new_pte paddr attrs)))
  unfolding arch_vm_map
  arch_vm_map_lem = elim (have_table_lem k base (pte_index1 vaddr) mem t (omega arith)) [
    | inl (full, vacant, nothing) ↦ inl (
      vacant,
      nothing,
      rw (v_aligned, p_aligned, walk-err k k base vaddr true no_memory v_aligned full) refl,
    )
    | inr (k', e, r) ↦
        let w = walk-have_table k k' base vaddr true v_aligned e in
        let there = lookup_there k'.bytes base vaddr r.there in
        let same : load32 k'.bytes (slot_of k'.bytes base vaddr) ≡ lookup k.bytes base vaddr =
          sym there ∙ r.same vaddr in
        elim (Bool-cases (load32 k'.bytes (slot_of k'.bytes base vaddr) % 2 == 1)) [
          | inl valid ↦
              let odd : lookup k.bytes base vaddr % 2 ≡ 1 = rw (← same) ((==_iff _ 1).0 valid) in
              let old : first k.bytes base (pte_index1 vaddr) ≢ 0 =
                λ z. absurd (omega (arith, odd, lookup_none k.bytes base vaddr z)) in
              inr (
                inl (
                  odd,
                  rw (v_aligned, p_aligned, w, valid)
                      (ap (λ q. done (err already_exists) q) (r.unchanged old)),
                ))
          | inr vacant ↦
              let even : lookup k.bytes base vaddr % 2 ≡ 0 = rw (← same) (ground (arith, vacant)) in
              let kilo : (paddr % 1024 == 0) ≡ true = ground (arith, p_aligned) in
              let k2 : Kernel = record k' {
                bytes = store32 k'.bytes (slot_of k'.bytes base vaddr) (new_pte paddr attrs);
              } in
              inr (
                inr (
                  even,
                  (
                    k2,
                    rw (v_aligned, p_aligned, w, vacant, kilo, quiet k2) refl,
                    record {
                      table = store-IsTable k' base vaddr (new_pte paddr attrs) r.table r.there;
                      entry = λ u below.
                          lookup-store k' base r.table vaddr (new_pte paddr attrs) u v_below below
                            (omega (arith, flags_bound attrs, p_below)) r.there
                          ∙ ap
                              (λ old.
                                if u / page_size == vaddr / page_size
                                then new_pte paddr attrs
                                else old)
                              (r.same u);
                    },
                  ),
                ))
        ]
  ]

-- The address space that a value of the register `satp` stands for.
abbrev pub table_of_satp : ℕ → ℕ
table_of_satp satp = satp % 2 ^ 30 * 2 ^ 12 % u32_mod

-- `riscv32_is_mapped` of a 32-bit address tells whether the entry that the hardware finds from the
-- table in `satp` is valid; it changes nothing, whatever the tables hold.
pub riscv32_is_mapped_lem :
    (k : Kernel) (satp vaddr : ℕ)
    → vaddr < 2 ^ 32
    → riscv32_is_mapped satp vaddr k ≡ done (lookup k.bytes (table_of_satp satp) vaddr % 2 == 1) k
unfolding riscv32_is_mapped walk have_table
riscv32_is_mapped_lem k satp vaddr below =
    let al : vaddr / page_size * page_size % page_size ≡ 0 = omega arith in
    let i1 : pte_index1 (vaddr / page_size * page_size) ≡ pte_index1 vaddr = omega arith in
    let i0 : pte_index0 (vaddr / page_size * page_size) ≡ pte_index0 vaddr = omega arith in
    elim (Bool-cases (first k.bytes (table_of_satp satp) (pte_index1 vaddr) == 0)) [
      | inl none_there ↦ rw (al, i1, none_there) refl
      | inr there ↦ rw (al, i1, i0, there) refl
    ]
