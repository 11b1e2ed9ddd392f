-- ===== src/Kernel/PageTable/Tests.antt =====
-- An address space in a zone of four pages whose first page is the first table.
use microkernel_book.Base.{ℕ, zero, suc, ◌%◌, ◌<◌, ◌≡◌, ◌⊎◌, refl, some, [], ◌∷◌, arith, get_elem?}
use microkernel_book.Bytes.Words.{load32}
use microkernel_book.Kernel.State.{Kernel, Zone, ok, err, no_memory, already_exists, not_found}
use microkernel_book.Kernel.Monad.{M, done, pure}
use microkernel_book.Kernel.Memory.Tests.{zone, with_zone}
use microkernel_book.Kernel.PageTable.{arch_vm_map, arch_vm_unmap, pte_paddr}
use microkernel_book.Kernel.PageTable.Walk.{first, lookup, IsUsed, IsTable}
use microkernel_book.Kernel.PageTable.Fresh.{IsMemory, NoFreePage}
use microkernel_book.Kernel.PageTable.Map.{IsMapped, new_pte, arch_vm_map_lem}
use microkernel_book.Kernel.PageTable.Unmap.{IsUnmapped, arch_vm_unmap_lem}

abbrev kernel : Kernel
kernel = record with_zone { bytes = λ a. 0 }

abbrev base : ℕ
base = 0x8020_0000

zone-positive : (n : ℕ) (z : Zone) → get_elem? (zone ∷ []) n ≡ some z → 0 < z.base
zone-positive zero z e = ground (arith, e)
zone-positive (suc n) z e = cc

kernel-IsMemory : IsMemory kernel
kernel-IsMemory = record { wf = ((refl, omega arith), tt, tt); positive = zone-positive }

base-IsUsed : IsUsed kernel base
base-IsUsed = record {
  n = 0;
  i = 0;
  zone = zone;
  is_zone = refl;
  within = omega arith;
  address = refl;
  counted = λ e. cc;
}

no_entries : (i : ℕ) → first kernel.bytes base i ≡ 0
unfolding load32
no_entries i = refl

kernel-IsTable : IsTable kernel base
kernel-IsTable = record {
  used = base-IsUsed;
  aligned = refl;
  second = λ i hi there. absurd (there (no_entries i));
  apart = λ i j hi hj ne there. absurd (there (no_entries i));
}

abbrev no_ipi : M (Unit {0})
no_ipi = pure tt

arch_vm_map_lem_example :
    ((first kernel.bytes base 1 ≡ 0)
      × NoFreePage kernel
      × (arch_vm_map no_ipi base 0x40_0000 0x8020_2000 6 kernel ≡ done (err no_memory) kernel))
    ⊎ ((lookup kernel.bytes base 0x40_0000 % 2 ≡ 1)
        × (arch_vm_map no_ipi base 0x40_0000 0x8020_2000 6 kernel
            ≡ done (err already_exists) kernel))
    ⊎ ((lookup kernel.bytes base 0x40_0000 % 2 ≡ 0)
        × ((k' : Kernel) × (arch_vm_map no_ipi base 0x40_0000 0x8020_2000 6 kernel
              ≡ done (ok tt) k')
            × IsMapped kernel k' base 0x40_0000 (new_pte 0x8020_2000 6)))
arch_vm_map_lem_example =
    arch_vm_map_lem no_ipi kernel base 0x40_0000 0x8020_2000 6 kernel-IsMemory kernel-IsTable
      (λ k. refl) refl (omega arith) refl (omega arith)

arch_vm_unmap_lem_example :
    ((lookup kernel.bytes base 0x40_0000 % 2 ≡ 0)
      → arch_vm_unmap no_ipi base 0x40_0000 kernel ≡ done (err not_found) kernel)
    × ((lookup kernel.bytes base 0x40_0000 % 2 ≡ 1)
        → IsUsed kernel (pte_paddr (lookup kernel.bytes base 0x40_0000))
        → (k' : Kernel) × (arch_vm_unmap no_ipi base 0x40_0000 kernel ≡ done (ok tt) k')
          × IsUnmapped kernel k' base 0x40_0000)
arch_vm_unmap_lem_example =
    arch_vm_unmap_lem no_ipi kernel base 0x40_0000 kernel-IsMemory kernel-IsTable (λ k. refl) refl
      (omega arith)
