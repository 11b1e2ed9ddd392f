-- ===== src/Kernel/PageTable/Unmap.antt =====
-- `arch_vm_unmap` of kernel/riscv32/vm.c, with the free of the page in kernel/memory.c.
use microkernel_book.Base.{
  ℕ, ◌-◌, ◌/◌, ◌%◌, ◌^◌, ◌<◌, ◌≡◌, ◌≢◌, inl, inr, refl, ◌∙◌, arith, false, none, some, Option, ◌==◌,
  ==_iff, Bool-cases, if◌then◌else◌,
}
use microkernel_book.Bytes.Words.{load32, store32}
use microkernel_book.Kernel.State.{Kernel, Page, PageRef, page_size, u32_mod, ok, err, not_found}
use microkernel_book.Kernel.Monad.{M, done}
use microkernel_book.Kernel.Memory.{
  paddr_of, read_page, modify_page, deref, free_page, remove_page, unlink_page, pm_free,
}
use microkernel_book.Kernel.Memory.Claim.{read-modify_self}
use microkernel_book.Kernel.Memory.Lookup.{find_page_by_paddr-paddr_of}
use microkernel_book.Kernel.PageTable.{pte_index1, pte_paddr, have_table, arch_vm_unmap}
use microkernel_book.Kernel.PageTable.Walk.{
  first, lookup, slot_of, IsUsed, IsTable, lookup-store, lookup_none, lookup_there,
}
use microkernel_book.Kernel.PageTable.Fresh.{IsMemory}
use microkernel_book.Kernel.PageTable.Map.{walk-have_table, walk-err}
use microkernel_book.Kernel.PageTable.Tables.{used_bytes}

unlink_page-bytes : (p : PageRef) (t : Option ℕ) (k : Kernel) → (unlink_page p t k).bytes ≡ k.bytes
unlink_page-bytes p none k = refl
unlink_page-bytes p (some t) k = refl

deref-done :
    (k : Kernel) (p : PageRef) (page : Page) → read_page k p ≡ some page → deref p k ≡ done page k
unfolding deref
deref-done k p page e = rw (e, deref) refl

-- The page with one user less.
abbrev less_used : PageRef → Kernel → Kernel
less_used p k = modify_page p (λ page. record page { ref_count = page.ref_count - 1 }) k

modify_page-bytes :
    (p : PageRef) (f : Page → Page) (k : Kernel) → (modify_page p f k).bytes ≡ k.bytes
unfolding modify_page
modify_page-bytes (n, i) f k = refl

remove_page-done :
    (k : Kernel) (p : PageRef) (page : Page)
    → read_page k p ≡ some page
    → (k' : Kernel) × (remove_page p k ≡ done tt k') × (k'.bytes ≡ k.bytes)
unfolding remove_page
remove_page-done k p page e = (
  modify_page p (λ page. record page { next = none }) (unlink_page p page.next k),
  rw (deref-done k p page e) refl,
  modify_page-bytes p (λ page. record page { next = none }) (unlink_page p page.next k)
      ∙ unlink_page-bytes p page.next k,
)

free_page-done :
    (k : Kernel) (p : PageRef) (page : Page)
    → read_page k p ≡ some page
    → page.ref_count ≢ 0
    → (k' : Kernel) × (free_page p k ≡ done tt k') × (k'.bytes ≡ k.bytes)
unfolding free_page
free_page-done k (n, i) page e used =
    let counted : (page.ref_count == 0) ≡ false = ground (arith, used) in
    let (k', gone, same) =
      remove_page-done (less_used (n, i) k) (n, i) (record page { ref_count = page.ref_count - 1 })
        (read-modify_self k n i (λ page. record page { ref_count = page.ref_count - 1 }) page e) in
    elim (Bool-cases (page.ref_count - 1 == 0)) [
      | inl last ↦ (
        k',
        rw (deref-done k (n, i) page e, counted, last, gone) refl,
        same ∙ modify_page-bytes (n, i) (λ page. record page { ref_count = page.ref_count - 1 }) k,
      )
      | inr shared ↦ (
        less_used (n, i) k,
        rw (deref-done k (n, i) page e, counted, shared) refl,
        modify_page-bytes (n, i) (λ page. record page { ref_count = page.ref_count - 1 }) k,
      )
    ]

IsUsed-read :
    (k : Kernel) (p : ℕ) (u : IsUsed k p) → read_page k (u.n, u.i) ≡ some (u.zone.pages u.i)
unfolding read_page
IsUsed-read k p u = rw (u.is_zone, read_page) refl

-- The free of a page in use ends, and touches no memory.
pub pm_free-done :
    (k : Kernel) (p : ℕ)
    → IsMemory k
    → IsUsed k p
    → (k' : Kernel) × (pm_free p page_size k ≡ done tt k') × (k'.bytes ≡ k.bytes)
unfolding pm_free
pm_free-done k p mem u =
    let small : paddr_of u.zone u.i % u32_mod ≡ paddr_of u.zone u.i = omega arith in
    let found = find_page_by_paddr-paddr_of k u.n u.i u.zone mem.wf u.is_zone u.within in
    let (k', freed, same) =
      free_page-done k (u.n, u.i) (u.zone.pages u.i) (IsUsed-read k p u) u.counted in
    (k', rw (u.address, small, found, freed) refl, same)

-- `have_table` where no table may be made.
have_table-there :
    (k : Kernel) (slot : ℕ) → load32 k.bytes slot ≢ 0 → have_table slot false k ≡ done (ok tt) k
unfolding have_table
have_table-there k slot there =
    let e : (load32 k.bytes slot == 0) ≡ false = ground (arith, there) in rw e refl

have_table-none :
    (k : Kernel) (slot : ℕ)
    → load32 k.bytes slot ≡ 0
    → have_table slot false k ≡ done (err not_found) k
unfolding have_table
have_table-none k slot e = rw e refl

-- What unmapping has done to the tables.
abbrev pub IsUnmapped : Kernel → Kernel → ℕ → ℕ → Type 0
IsUnmapped k k' base vaddr =
    (w : ℕ)
    → w < 2 ^ 32
    → lookup k'.bytes base w
      ≡ (if w / page_size == vaddr / page_size then 0 else lookup k.bytes base w)

module _ (send_ipi : M (Unit {0})) (k : Kernel) (base vaddr : ℕ) (mem : IsMemory k)
    (t : IsTable k base) (quiet : (k : Kernel) → send_ipi k ≡ done tt k)
    (v_aligned : vaddr % page_size ≡ 0) (v_below : vaddr < 2 ^ 32) where
  -- `arch_vm_unmap` of an aligned 32-bit address, under the same conditions: a page that is not
  -- mapped is refused with ERR_NOT_FOUND, the kernel unchanged; for one that is mapped to a page in
  -- use the call ends without a failed assertion, and the tables map that page to nothing and every
  -- other page as before.
  pub arch_vm_unmap_lem :
      ((lookup k.bytes base vaddr % 2 ≡ 0)
        → arch_vm_unmap send_ipi base vaddr k ≡ done (err not_found) k)
      × ((lookup k.bytes base vaddr % 2 ≡ 1)
          → IsUsed k (pte_paddr (lookup k.bytes base vaddr))
          → (k' : Kernel) × (arch_vm_unmap send_ipi base vaddr k ≡ done (ok tt) k')
            × IsUnmapped k k' base vaddr)
  unfolding arch_vm_unmap
  arch_vm_unmap_lem = (
    (λ even. elim (Bool-cases (first k.bytes base (pte_index1 vaddr) == 0)) [
      | inl absent ↦
          rw
            (walk-err k k base vaddr false not_found v_aligned
              (have_table-none k _ ((==_iff _ 0).0 absent)))
            refl
      | inr present ↦
          let there : first k.bytes base (pte_index1 vaddr) ≢ 0 = λ e. ground (arith, present, e) in
          let zero_bit : load32 k.bytes (slot_of k.bytes base vaddr) % 2 ≡ 0 =
            rw (← (lookup_there k.bytes base vaddr there)) even in
          rw (walk-have_table k k base vaddr false v_aligned (have_table-there k _ there), zero_bit)
            refl
    ]),
    λ odd used.
        let there : first k.bytes base (pte_index1 vaddr) ≢ 0 =
          λ z. absurd (omega (arith, odd, lookup_none k.bytes base vaddr z)) in
        let same = lookup_there k.bytes base vaddr there in
        let one_bit : load32 k.bytes (slot_of k.bytes base vaddr) % 2 ≡ 1 = rw (← same) odd in
        let k1 : Kernel = record k { bytes = store32 k.bytes (slot_of k.bytes base vaddr) 0 } in
        let used1 : IsUsed k1 (pte_paddr (load32 k.bytes (slot_of k.bytes base vaddr))) =
          used_bytes {k = k} k1.bytes (rw (← same) used) in
        let (k', freed, kept) =
          pm_free-done k1 _ (record { wf = mem.wf; positive = mem.positive }) used1 in
        (
          k',
          rw
              (
                walk-have_table k k base vaddr false v_aligned (have_table-there k _ there),
                one_bit,
                freed,
                quiet k',
              )
              refl,
          λ w below. rw kept (lookup-store k base t vaddr 0 w v_below below (omega arith) there),
        ),
  )
