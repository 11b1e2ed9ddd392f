-- ===== src/Kernel/PageTable.antt =====
-- kernel/riscv32/vm.c and vm.h: two-level page tables of Sv32 in physical memory. A table is known
-- by its physical address. A word that is put together from parts with no common bit is written as
-- their sum, and the test of its lowest bit as a remainder.
pub mod Walk
pub mod Fresh
pub mod Tables
pub mod Map
pub mod Unmap
pub mod Tests
use microkernel_book.Base.{
  ℕ, zero, suc, ◌+◌, ◌-◌, ◌*◌, ◌/◌, ◌%◌, ◌^◌, Bool, true, false, not, ◌&&◌, none, some, List, [],
  ◌∷◌, ◌==◌, ltb, leb, if◌then◌else◌, bit_and,
}
use microkernel_book.Bytes.{memcpy}
use microkernel_book.Bytes.Words.{load32, store32}
use microkernel_book.Kernel.State.{
  Kernel, Result, ok, err, no_memory, not_found, already_exists, page_size, u32_mod,
}
use microkernel_book.Kernel.Monad.{M, panic, pure, ◌>>=◌, ◌>>◌, assert, get, modify, and_ok}
use microkernel_book.Kernel.Memory.{AllocFlags, pm_alloc, pm_free}

-- PTE_INDEX
abbrev pub pte_index1 : ℕ → ℕ
pte_index1 vaddr = vaddr / 2 ^ 22 % 1024

abbrev pub pte_index0 : ℕ → ℕ
pte_index0 vaddr = vaddr / 2 ^ 12 % 1024

-- PTE_PADDR, a 32-bit word
abbrev pub pte_paddr : ℕ → ℕ
pte_paddr pte = pte / 2 ^ 10 * 2 ^ 12 % u32_mod

abbrev pub pte_v : ℕ
pte_v = 1

-- PTE_V | PTE_U
abbrev pub pte_vu : ℕ
pte_vu = 17

-- The flag of an entry for an attribute; PAGE_READABLE, PAGE_WRITABLE, PAGE_EXECUTABLE and PAGE_USER
-- have the values of PTE_R, PTE_W, PTE_X and PTE_U.
abbrev pub flag_of : ℕ → ℕ → ℕ
flag_of attrs flag = if bit_and attrs flag == 0 then 0 else flag

unfoldable pub page_attrs_to_pte_flags : ℕ → ℕ
page_attrs_to_pte_flags attrs =
    flag_of attrs 2 + flag_of attrs 4 + flag_of attrs 8 + flag_of attrs 16

abbrev pub construct_pte : ℕ → ℕ → M ℕ
construct_pte paddr flags = do assert (paddr % 1024 == 0); pure (paddr / 2 ^ 12 * 2 ^ 10 + flags)

abbrev pub read_word : ℕ → M ℕ
read_word a k = pure (load32 k.bytes a) k

abbrev pub write_word : ℕ → ℕ → M (Unit {0})
write_word a v = modify λ k. record k { bytes = store32 k.bytes a v }

-- PM_ALLOC_ZEROED
abbrev pub zeroed : AllocFlags
zeroed = record { zeroed = true; aligned = false }

-- The second table, made if it is asked for and not there.
unfoldable pub have_table : ℕ → Bool → M (Result (Unit {0}))
have_table slot alloc = do
  pte ← read_word slot
  if not (pte == 0) then pure (ok tt) else if not alloc then pure (err not_found) else (do
    paddr ← pm_alloc page_size none zeroed
    if paddr == 0
        then pure (err no_memory)
        else (do new ← construct_pte paddr pte_v; write_word slot new; pure (ok tt)))

-- The address of the entry for `vaddr`.
unfoldable pub walk : ℕ → ℕ → Bool → M (Result ℕ)
walk base vaddr alloc = do
  assert (vaddr % page_size == 0)
  let slot = base + 4 * pte_index1 vaddr
  r ← have_table slot alloc
  and_ok r λ _. (do pte ← read_word slot; pure (ok (pte_paddr pte + 4 * pte_index0 vaddr)))

-- `send_ipi` is `arch_send_ipi(IPI_TLB_FLUSH)`.
unfoldable pub arch_vm_map : M (Unit {0}) → ℕ → ℕ → ℕ → ℕ → M (Result (Unit {0}))
unfolding page_attrs_to_pte_flags
arch_vm_map send_ipi table vaddr paddr attrs = do
  assert (vaddr % page_size == 0)
  assert (paddr % page_size == 0)
  r ← walk table vaddr true
  and_ok r λ pte. (do
    old ← read_word pte
    if old % 2 == 1 then pure (err already_exists) else (do
      new ← construct_pte paddr (page_attrs_to_pte_flags attrs + pte_v)
      write_word pte new
      send_ipi
      pure (ok tt)))

unfoldable pub arch_vm_unmap : M (Unit {0}) → ℕ → ℕ → M (Result (Unit {0}))
arch_vm_unmap send_ipi table vaddr = do
  r ← walk table vaddr false
  and_ok r λ pte. (do
    old ← read_word pte
    if old % 2 == 0
        then pure (err not_found)
        else (do write_word pte 0; pm_free (pte_paddr old) page_size; send_ipi; pure (ok tt)))

-- What `riscv32_is_mapped` makes of the walk.
abbrev pub is_valid : Result ℕ → M Bool
is_valid (err e) = pure false
is_valid (ok pte) = do old ← read_word pte; pure (old % 2 == 1)

unfoldable pub riscv32_is_mapped : ℕ → ℕ → M Bool
riscv32_is_mapped satp vaddr = do
  r ← walk (satp % 2 ^ 30 * 2 ^ 12 % u32_mod) (vaddr / page_size * page_size) false
  is_valid r

-- `vm->table` of the new address space; `kernel_table` is `kernel_vm.table`.
unfoldable pub arch_vm_init : ℕ → M (Result ℕ)
arch_vm_init kernel_table = do
  table ← pm_alloc page_size none zeroed
  if table == 0 then pure (err no_memory) else (do
    modify λ k. record k { bytes = memcpy k.bytes table kernel_table page_size }
    pure (ok table))

-- The inner loop of `arch_vm_destroy`, from entry `j` on.
unfoldable pub destroy_entries : ℕ → ℕ → ℕ → M (Unit {0})
destroy_entries zero table j k = pure tt k
destroy_entries (suc rounds) table j k =
    let rest = destroy_entries rounds table (j + 1) in
    (read_word (table + 4 * j) >>= λ pte2.
    if not (bit_and pte2 pte_vu == pte_vu)
    then rest
    else (pm_free (pte_paddr pte2) page_size >>= λ _. rest))
      k

-- The outer loop, from entry `i` on.
unfoldable pub destroy_tables : ℕ → ℕ → ℕ → M (Unit {0})
unfolding destroy_entries
destroy_tables zero table i k = pure tt k
destroy_tables (suc rounds) table i k =
    let rest = destroy_tables rounds table (i + 1) in
    (read_word (table + 4 * i) >>= λ pte1.
    if pte1 % 2 == 0 then rest else (destroy_entries 512 (pte_paddr pte1) 0 >>= λ _. rest))
      k

unfoldable pub arch_vm_destroy : ℕ → M (Unit {0})
unfolding destroy_tables
arch_vm_destroy table = do destroy_tables 512 table 0; pm_free table page_size

-- The loop of `map_pages`, from `offset` on, with `rounds` pages left.
unfoldable pub map_loop : ℕ → M (Unit {0}) → ℕ → ℕ → ℕ → ℕ → M (Result (Unit {0}))
map_loop zero send_ipi table vaddr paddr attrs = pure (ok tt)
map_loop (suc rounds) send_ipi table vaddr paddr attrs =
    let rest = map_loop rounds send_ipi table (vaddr + page_size) (paddr + page_size) attrs in
    arch_vm_map send_ipi table (vaddr % u32_mod) (paddr % u32_mod) attrs >>= λ r. and_ok r λ _. rest

unfoldable pub map_pages : M (Unit {0}) → ℕ → ℕ → ℕ → ℕ → ℕ → M (Result (Unit {0}))
unfolding map_loop
map_pages send_ipi table vaddr paddr size attrs =
    map_loop ((size + (page_size - 1)) / page_size) send_ipi table vaddr paddr attrs

-- The addresses that the linker defines.
pub record Layout : Type 0 where
  pub text : ℕ
  pub text_end : ℕ
  pub kernel_data : ℕ
  pub kernel_data_end : ℕ
  pub ram_start : ℕ
  pub free_ram_start : ℕ

abbrev pub ram_size : ℕ
ram_size = 128 * 1024 * 1024

-- ASSERT_OK
abbrev pub assert_ok : Result (Unit {0}) → M (Unit {0})
assert_ok (ok _) k = pure tt k
assert_ok (err e) k = panic

-- A device or a part of RAM: start, size and attributes (RW is 6, RWX is 14).
abbrev pub regions : Layout → List (ℕ × (ℕ × ℕ))
regions l =
    (l.text, (l.text_end - l.text, 14))
    ∷ (l.kernel_data, (l.kernel_data_end - l.kernel_data, 6))
    ∷ (l.free_ram_start, (ram_size - (l.free_ram_start - l.ram_start), 6))
    ∷ (0x1000_0000, (page_size, 6))
    ∷ (0x0c00_0000, (0x40_0000, 6))
    ∷ (0x200_0000, (0x1_0000, 6))
    ∷ (0x2f0_0000, (page_size, 6))
    ∷ []

abbrev pub map_regions : M (Unit {0}) → ℕ → List (ℕ × (ℕ × ℕ)) → M (Unit {0})
map_regions send_ipi table [] = pure tt
map_regions send_ipi table ((start, (size, attrs)) ∷ rest) = do
  r ← map_pages send_ipi table start start size attrs
  assert_ok r
  map_regions send_ipi table rest

-- `kernel_vm.table`, which the source keeps in a static variable.
unfoldable pub riscv32_vm_init : M (Unit {0}) → Layout → M ℕ
riscv32_vm_init send_ipi l = do
  table ← pm_alloc page_size none zeroed
  assert (not (table == 0))
  assert (l.text % page_size == 0 && l.text_end % page_size == 0)
  map_regions send_ipi table (regions l)
  pure table
