-- ===== src/Dmabuf.antt =====
-- libs/user/dmabuf.c: a buffer for devices, cut into entries of one size. `driver_alloc_pages` of
-- driver.c asks the VM server for the pages; it stands as a function from the size and the flags to
-- the two addresses, or `none` for an error. A failed assertion is `none`.
pub mod Entries
pub mod Tests
use microkernel_book.Base.{
  ℕ, zero, suc, ◌+◌, ◌-◌, ◌*◌, ◌/◌, ◌%◌, ◌^◌, Bool, true, false, ◌&&◌, Option, none, some, leb, ltb,
  if◌then◌else◌, update,
}

pub record Dmabuf : Type 0 where
  pub paddr : ℕ
  pub uaddr : ℕ
  pub entry_size : ℕ
  pub num_entries : ℕ
  pub used : ℕ → Bool

-- `ALIGN_UP` of a 32-bit number, without an overflow check.
abbrev pub align_up_to : ℕ → ℕ → ℕ
align_up_to value align = (value + (align - 1)) % 2 ^ 32 / align * align

abbrev pub page_readable : ℕ
page_readable = 2

abbrev pub page_writable : ℕ
page_writable = 4

-- The buffer for the pages that came: `none` for an error, for which the source returns NULL.
abbrev pub with_pages : ℕ → ℕ → Option (ℕ × ℕ) → Option Dmabuf
with_pages entry_size num_entries none = none
with_pages entry_size num_entries (some pages) = some (record {
  paddr = pages.1;
  uaddr = pages.0;
  entry_size = entry_size;
  num_entries = num_entries;
  used = λ _. false;
})

-- The allocation of the two areas of the structure itself, which stops the task when it fails, is
-- left out, and so is the debug assertion on the address.
unfoldable pub dmabuf_create : (ℕ → ℕ → Option (ℕ × ℕ)) → ℕ → ℕ → Option Dmabuf
dmabuf_create driver_alloc_pages entry_size num_entries =
    let size = align_up_to entry_size 4 in
    with_pages size num_entries (
      driver_alloc_pages (align_up_to (size * num_entries % 2 ^ 32) 4096)
        (page_readable + page_writable))

-- The loop of `dmabuf_alloc` from the entry `i` on, with `left` entries to go: the first free one.
unfoldable pub first_free : ℕ → ℕ → (ℕ → Bool) → Option ℕ
first_free zero i used = none
first_free (suc left) i used =
    let rest = first_free left (i + 1) used in if used i then rest else some i

-- The address for the task, the address for the device, and the buffer.
abbrev pub hand_out : Dmabuf → Option ℕ → Option (ℕ × ℕ) × Dmabuf
hand_out d none = (none, d)
hand_out d (some i) =
    let offset = i * d.entry_size % 2 ^ 32 in
    (
      some ((d.uaddr + offset) % 2 ^ 32, (d.paddr + offset) % 2 ^ 32),
      record d { used = update d.used i true },
    )

unfoldable pub dmabuf_alloc : Dmabuf → Option (ℕ × ℕ) × Dmabuf
unfolding first_free
dmabuf_alloc d = hand_out d (first_free d.num_entries 0 d.used)

unfoldable pub check_paddr : Dmabuf → ℕ → Bool
check_paddr d paddr =
    leb d.paddr paddr && ltb paddr ((d.paddr + d.entry_size * d.num_entries % 2 ^ 32) % 2 ^ 32)

unfoldable pub dmabuf_p2v : Dmabuf → ℕ → Option ℕ
unfolding check_paddr
dmabuf_p2v d paddr =
    if check_paddr d paddr then some ((d.uaddr + paddr + 2 ^ 32 - d.paddr) % 2 ^ 32) else none

unfoldable pub dmabuf_free : Dmabuf → ℕ → Option Dmabuf
unfolding check_paddr
dmabuf_free d paddr =
    if check_paddr d paddr
    then some (record d { used = update d.used ((paddr - d.paddr) / d.entry_size) false })
    else none
