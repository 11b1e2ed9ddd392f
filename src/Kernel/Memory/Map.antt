-- ===== src/Kernel/Memory/Map.antt =====
-- `vm_map` of kernel/memory.c: whom it lets map a page.
use microkernel_book.Base.{
  ℕ, ◌%◌, ◌≡◌, ◌≢◌, ◌⊎◌, inl, inr, refl, ap, ◌∙◌, Option, none, some, arith, Option-cases,
}
use microkernel_book.Kernel.State.{
  Kernel, Page, PageRef, ZoneType, free, mmio, Error, Result, ok, err, invalid_paddr, page_size,
}
use microkernel_book.Kernel.Monad.{M, Outcome, done, panic, and_then, ◌>>=◌}
use microkernel_book.Kernel.Memory.{
  read_page, find_page_loop, find_page_by_paddr, may_map, mapped, checked, vm_map, deref,
}

-- The task owns the allocated page or is the pager of its owner; or the page is a device's that
-- nobody mapped.
abbrev pub MayMap : Kernel → ℕ → ZoneType → Page → Type 0
MayMap k task free page =
    (page.ref_count ≢ 0)
    × (owner : ℕ) × (page.owner ≡ some owner)
    × ((owner ≡ task) ⊎ ((k.tasks owner).pager ≡ some task))
MayMap k task mmio page = page.ref_count ≡ 0

-- An allocated page of RAM that belongs to the kernel.
abbrev pub IsKernelPage : ZoneType → Page → Type 0
IsKernelPage type page = (type ≡ free) × (page.ref_count ≢ 0) × (page.owner ≡ none)

may_map-MayMap :
    (k : Kernel) (task : ℕ) (type : ZoneType) (page : Page)
    → may_map k task type page ≡ some (ok tt)
    → MayMap k task type page
unfolding may_map
may_map-MayMap k task free page h = elim (Option-cases page.owner) [
  | inl e ↦ ground (arith)
  | inr (owner, e) ↦ elim (Option-cases (k.tasks owner).pager) [
    | inl p ↦ (ground arith, owner, e, inl (ground arith))
    | inr (pager, p) ↦ (ground arith, owner, e, ground arith)
  ]
]
may_map-MayMap k task mmio page h = ground arith

may_map-refused :
    (k : Kernel) (task : ℕ) (type : ZoneType) (page : Page) (e : Error)
    → may_map k task type page ≡ some (err e)
    → (e ≡ invalid_paddr) × (MayMap k task type page → ⊥)
unfolding may_map
may_map-refused k task free page e h = elim (Option-cases page.owner) [
  | inl o ↦ (ground arith, λ m. ground (arith, m.2, m.0))
  | inr (owner, o) ↦ elim (Option-cases (k.tasks owner).pager) [
    | inl p ↦ (ground arith, λ m. ground (arith, m.0, m.2))
    | inr (pager, p) ↦ (ground arith, λ m. ground (arith, m.0, m.2))
  ]
]
may_map-refused k task mmio page e h = (ground arith, λ m. ground arith)

may_map-none :
    (k : Kernel) (task : ℕ) (type : ZoneType) (page : Page)
    → may_map k task type page ≡ none
    → IsKernelPage type page
unfolding may_map
may_map-none k task free page h = elim (Option-cases page.owner) [
  | inl o ↦ (refl, ground arith, o)
  | inr (owner, o) ↦ elim (Option-cases (k.tasks owner).pager) [
    | inl p ↦ ground arith
    | inr (pager, p) ↦ ground arith
  ]
]
may_map-none k task mmio page h = ground arith

module _ (arch_vm_map : ℕ → ℕ → ℕ → ℕ → M (Result (Unit {0}))) (task uaddr paddr attrs : ℕ)
    (k : Kernel) where
  -- The call behind the search for the page, and behind the read of the page.
  abbrev from_found : Option (ZoneType × PageRef) → Outcome (Result (Unit {0}))
  from_found none = done (err invalid_paddr) k
  from_found (some (type, p)) = and_then (deref p k) λ page.
      checked (may_map k task type page) (arch_vm_map task uaddr paddr attrs >>= mapped type task p)

  from_page : ZoneType → PageRef → Option Page → Outcome (Result (Unit {0}))
  from_page type p none = panic
  from_page type p (some page) =
      checked (may_map k task type page) (arch_vm_map task uaddr paddr attrs >>= mapped type task p)
        k

  vm_map-from_found :
      (o : Option (ZoneType × PageRef))
      → find_page_by_paddr paddr k ≡ done o k
      → vm_map arch_vm_map task uaddr paddr attrs k ≡ from_found o
  unfolding vm_map
  vm_map-from_found none e = rw e refl
  vm_map-from_found (some (type, p)) e = rw e refl

  deref-some : (p : PageRef) (page : Page) → read_page k p ≡ some page → deref p k ≡ done page k
  unfolding deref
  deref-some p page at = ap (λ o. elim o [ none ↦ panic | some page ↦ done page k ]) at

  find_page-done :
      paddr % page_size ≡ 0 → find_page_by_paddr paddr k ≡ done (find_page_loop k.zones 0 paddr) k
  unfolding find_page_by_paddr
  find_page-done a = rw a refl

  module _ (type : ZoneType) (p : PageRef) (page : Page) (aligned : paddr % page_size ≡ 0)
      (found : find_page_loop k.zones 0 paddr ≡ some (type, p))
      (at : read_page k p ≡ some page) where
    vm_map-checked :
        vm_map arch_vm_map task uaddr paddr attrs k
        ≡ checked
            (may_map k task type page)
            (arch_vm_map task uaddr paddr attrs >>= mapped type task p)
            k
    vm_map-checked =
        vm_map-from_found (some (type, p)) (find_page-done aligned ∙ ap (λ o. done o k) found)
        ∙ ap
            (λ o. and_then o λ page.
              checked (may_map k task type page)
                (arch_vm_map task uaddr paddr attrs >>= mapped type task p))
            (deref-some p page at)

    -- `vm_map` of an aligned address of a known page: a task that owns the allocated page or is its
    -- owner's pager, or any task for an unmapped device page, gets what `arch_vm_map` and the
    -- bookkeeping return; a page of RAM that belongs to the kernel stops the kernel; any other page
    -- is refused with ERR_INVALID_PADDR, the kernel unchanged.
    pub vm_map_lem :
        (MayMap k task type page
          × (vm_map arch_vm_map task uaddr paddr attrs k
              ≡ (arch_vm_map task uaddr paddr attrs >>= mapped type task p) k))
        ⊎ (IsKernelPage type page × (vm_map arch_vm_map task uaddr paddr attrs k ≡ panic))
        ⊎ ((¬ MayMap k task type page)
            × (vm_map arch_vm_map task uaddr paddr attrs k ≡ done (err invalid_paddr) k))
    vm_map_lem = by_check (may_map k task type page) refl
      where
        run : M (Result (Unit {0}))
        run = arch_vm_map task uaddr paddr attrs >>= mapped type task p

        by_check :
            (c : Option (Result (Unit {0})))
            → may_map k task type page ≡ c
            → (MayMap k task type page × (vm_map arch_vm_map task uaddr paddr attrs k ≡ run k))
              ⊎ (IsKernelPage type page × (vm_map arch_vm_map task uaddr paddr attrs k ≡ panic))
              ⊎ ((¬ MayMap k task type page)
                  × (vm_map arch_vm_map task uaddr paddr attrs k ≡ done (err invalid_paddr) k))
        by_check none e =
            inr
              (inl (may_map-none k task type page e, vm_map-checked ∙ ap (λ c. checked c run k) e))
        by_check (some (ok u)) e =
            inl (may_map-MayMap k task type page e, vm_map-checked ∙ ap (λ c. checked c run k) e)
        by_check (some (err x)) e =
            let (same, refused) = may_map-refused k task type page x e in
            inr (
              inr (
                refused,
                vm_map-checked ∙ ap (λ c. checked c run k) e ∙ ap (λ x. done (err x) k) same,
              ))
