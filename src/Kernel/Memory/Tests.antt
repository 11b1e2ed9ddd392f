-- ===== src/Kernel/Memory/Tests.antt =====
-- A zone of four pages, the first of which is in use, and the theorems there.
use microkernel_book.Base.{
  ℕ, ◌≡◌, ◌⊎◌, refl, true, false, none, some, [], ◌∷◌, arith, ltb, if◌then◌else◌,
}
use microkernel_book.Kernel.State.{Kernel, Page, Zone, free, Result, ok, err, invalid_paddr}
use microkernel_book.Kernel.Monad.{M, done, panic, pure, ◌>>=◌}
use microkernel_book.Kernel.Memory.{
  find_page_by_paddr, paddr_of, AllocFlags, find_page_loop, in_zone, read_page, mapped, vm_map,
}
use microkernel_book.Kernel.Memory.Lookup.{find_page_by_paddr-paddr_of}
use microkernel_book.Kernel.Memory.Map.{MayMap, IsKernelPage, vm_map_lem}
use microkernel_book.Kernel.Invariant.Tests.{machine}

abbrev used_page : Page
used_page = record { owner = some 1; ref_count = 1; next = none }

abbrev vacant_page : Page
vacant_page = record { owner = none; ref_count = 0; next = none }

abbrev pub zone : Zone
zone = record {
  type = free;
  base = 0x8020_0000;
  num_pages = 4;
  pages = λ i. if ltb i 1 then used_page else vacant_page;
}

abbrev pub with_zone : Kernel
with_zone = record machine { zones = zone ∷ [] }

abbrev no_flags : AllocFlags
no_flags = record { zeroed = true; aligned = false }

abbrev map_nothing : ℕ → ℕ → ℕ → ℕ → M (Result (Unit {0}))
map_nothing task uaddr paddr attrs = pure (ok tt)

first_page : find_page_loop with_zone.zones 0 0x8020_0000 ≡ some (free, (0, 0))
unfolding find_page_loop in_zone
first_page = refl

first_page-read : read_page with_zone (0, 0) ≡ some used_page
unfolding read_page
first_page-read = refl

vm_map_lem_example :
    (MayMap with_zone 2 free used_page
      × (vm_map map_nothing 2 0x1000 0x8020_0000 0 with_zone
          ≡ (map_nothing 2 0x1000 0x8020_0000 0 >>= mapped free 2 (0, 0)) with_zone))
    ⊎ (IsKernelPage free used_page × (vm_map map_nothing 2 0x1000 0x8020_0000 0 with_zone ≡ panic))
    ⊎ ((¬ MayMap with_zone 2 free used_page)
        × (vm_map map_nothing 2 0x1000 0x8020_0000 0 with_zone
            ≡ done (err invalid_paddr) with_zone))
vm_map_lem_example =
    vm_map_lem map_nothing 2 0x1000 0x8020_0000 0 with_zone free (0, 0) used_page refl first_page
      first_page-read

find_page_by_paddr-paddr_of_example :
    find_page_by_paddr (paddr_of zone 2) with_zone ≡ done (some (free, (0, 2))) with_zone
find_page_by_paddr-paddr_of_example =
    find_page_by_paddr-paddr_of with_zone 0 2 zone ((refl, omega arith), tt, tt) refl (omega arith)
