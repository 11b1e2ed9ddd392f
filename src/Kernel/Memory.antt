-- ===== src/Kernel/Memory.antt =====
-- kernel/memory.c: physical pages. A zone is known by its place in the list `zones`, a page by its
-- zone and its index. Sizes and addresses are 32-bit words, as on riscv32.
pub mod Find
pub mod Claim
pub mod Alloc
pub mod Map
pub mod Lookup
pub mod Tests
use microkernel_book.Base.{
  ℕ, zero, suc, ◌+◌, ◌-◌, ◌*◌, ◌/◌, ◌%◌, ◌^◌, Bool, true, false, not, ◌&&◌, ◌||◌, Option, none,
  some, List, [], ◌∷◌, ◌++◌, ◌==◌, ltb, leb, if◌then◌else◌, get_elem?, modify_at, update, bit_and,
}
use microkernel_book.Kernel.State.{
  Kernel, Task, Page, PageRef, Zone, ZoneType, free, mmio, page_size, u32_mod, Result, ok, err,
  invalid_paddr, invalid_arg,
}
use microkernel_book.Kernel.Ipc.{arch_is_mappable_uaddr}
use microkernel_book.Kernel.Monad.{
  M, Outcome, done, panic, pure, ◌>>=◌, ◌>>◌, assert, get, modify, modify_task, set_task, and_ok,
}

-- ALIGN_UP(value, PAGE_SIZE) on a 32-bit word.
unfoldable pub align_up : ℕ → ℕ
align_up size = (size + (page_size - 1)) / page_size * page_size % u32_mod

-- IS_ALIGNED(value, align): (value & (align - 1)) == 0
unfoldable pub is_aligned : ℕ → ℕ → Bool
is_aligned value align = bit_and value ((align + u32_mod - 1) % u32_mod) == 0

abbrev pub is_free : ZoneType → Bool
is_free free = true
is_free mmio = false

-- Whether the address lies in the zone.
unfoldable pub in_zone : Zone → ℕ → Bool
in_zone zone paddr =
    leb zone.base paddr && ltb paddr ((zone.base + zone.num_pages * page_size) % u32_mod)

-- The search of `find_page_by_paddr`, from zone `n` on.
unfoldable pub find_page_loop : List Zone → ℕ → ℕ → Option (ZoneType × PageRef)
find_page_loop [] n paddr = none
find_page_loop (zone ∷ zones) n paddr =
    if in_zone zone paddr
    then some (zone.type, (n, (paddr - zone.base) / page_size))
    else find_page_loop zones (n + 1) paddr

unfoldable pub find_page_by_paddr : ℕ → M (Option (ZoneType × PageRef))
unfolding find_page_loop in_zone
find_page_by_paddr paddr = do
  assert (paddr % page_size == 0)
  k ← get
  pure (find_page_loop k.zones 0 paddr)

-- `*page` and a write to it.
unfoldable pub read_page : Kernel → PageRef → Option Page
read_page k (n, i) = elim (get_elem? k.zones n) [ none ↦ none | some zone ↦ some (zone.pages i) ]

unfoldable pub modify_page : PageRef → (Page → Page) → Kernel → Kernel
modify_page (n, i) f k = record k {
  zones = modify_at n (λ z. record z { pages = update z.pages i (f (z.pages i)) }) k.zones;
}

abbrev pub page_eq : PageRef → PageRef → Bool
page_eq (n, i) (m, j) = n == m && i == j

unfoldable pub has_page : PageRef → List PageRef → Bool
has_page p [] = false
has_page p (q ∷ qs) = page_eq p q || has_page p qs

unfoldable pub erase_page : PageRef → List PageRef → List PageRef
erase_page p [] = []
erase_page p (q ∷ qs) = if page_eq p q then qs else q ∷ erase_page p qs

abbrev pub is_none : Option ℕ → Bool
is_none none = true
is_none (some t) = false

-- The page at a reference; a reference to no zone is a wild pointer.
unfoldable pub deref : PageRef → M Page
unfolding read_page
deref p k = elim (read_page k p) [ none ↦ panic | some page ↦ done page k ]

-- `list_push_back(&owner->pages, &page->next)`
unfoldable pub push_page : ℕ → PageRef → M (Unit {0})
unfolding deref modify_page has_page
push_page owner p = do
  k ← get
  page ← deref p
  assert (not (has_page p (k.tasks owner).pages))
  assert (is_none page.next)
  modify_task owner (λ t. record t { pages = t.pages ++ p ∷ [] })
  modify (modify_page p (λ page. record page { next = some owner }))

abbrev pub unlink_page : PageRef → Option ℕ → Kernel → Kernel
unlink_page p none k = k
unlink_page p (some t) k = set_task t (λ x. record x { pages = erase_page p x.pages }) k

-- `list_remove(&page->next)`
unfoldable pub remove_page : PageRef → M (Unit {0})
unfolding deref modify_page erase_page
remove_page p = do
  page ← deref p
  modify (unlink_page p page.next)
  modify (modify_page p (λ page. record page { next = none }))

-- `add_zone`, for a zone header that stands at the head of its own pages.
unfoldable pub add_zone : ZoneType → ℕ → ℕ → (ℕ → Page) → M (Unit {0})
add_zone type paddr num_pages pages = modify λ k. record k {
  zones =
      k.zones
      ++ record {
        type = type;
        base = paddr;
        num_pages = num_pages;
        pages = λ i. if ltb i num_pages then record (pages i) { ref_count = 0 } else pages i;
      }
        ∷ [];
}

-- The loop of `is_contiguously_free` from page i on, with `rounds` left. Like the source, it may read
-- behind the zone's array: `zone.pages` from `num_pages` on stands for whatever is there.
unfoldable pub free_loop : ℕ → Zone → ℕ → ℕ → Bool
free_loop zero zone start i = true
free_loop (suc rounds) zone start i =
    let rest = free_loop rounds zone start (i + 1) in
    if not ((zone.pages (start + i)).ref_count == 0) then false else rest

unfoldable pub is_contiguously_free : Zone → ℕ → ℕ → Bool
unfolding free_loop
is_contiguously_free zone start num_pages = free_loop num_pages zone start 0

-- What a call of `pm_alloc` asks for: the flags PM_ALLOC_ZEROED and PM_ALLOC_ALIGNED.
pub record AllocFlags : Type 0 where
  pub zeroed : Bool
  pub aligned : Bool

-- The address of a page of a zone.
abbrev pub paddr_of : Zone → ℕ → ℕ
paddr_of zone start = (zone.base + start * page_size) % u32_mod

-- The test that `pm_alloc` makes for one `start`.
unfoldable pub fits : AllocFlags → ℕ → ℕ → Zone → ℕ → Bool
unfolding is_aligned is_contiguously_free
fits flags aligned_size num_pages zone start =
    not (flags.aligned && not (is_aligned (paddr_of zone start) aligned_size))
    && is_contiguously_free zone start num_pages

-- The inner loop of `pm_alloc`, with `rounds` of the zone's pages left.
unfoldable pub find_start : ℕ → (ℕ → Bool) → ℕ → Option ℕ
find_start zero test start = none
find_start (suc rounds) test start =
    let rest = find_start rounds test (start + 1) in if test start then some start else rest

-- The search of `pm_alloc`, from zone `n` on: the zone's place, the first page and its address.
unfoldable pub find_free :
    AllocFlags → ℕ → ℕ → List Zone → ℕ → Option (record { zone : ℕ; start : ℕ; paddr : ℕ })
unfolding fits find_start
find_free flags aligned_size num_pages [] n = none
find_free flags aligned_size num_pages (zone ∷ zones) n =
    let rest = find_free flags aligned_size num_pages zones (n + 1) in
    if is_free zone.type
    then elim (find_start zone.num_pages (fits flags aligned_size num_pages zone) 0) [
      | none ↦ rest
      | some start ↦ some (record { zone = n; start = start; paddr = paddr_of zone start })
    ]
    else rest

-- The loop that takes the pages, from page `i` on.
unfoldable pub claim_pages : ℕ → Option ℕ → ℕ → ℕ → M (Unit {0})
unfolding modify_page
claim_pages zero owner zone i k = done tt k
claim_pages (suc rounds) owner zone i k =
    let k' =
      modify_page (zone, i) (λ page. record { owner = owner; ref_count = 1; next = none }) k in
    elim owner [
      | none ↦ claim_pages rounds none zone (i + 1) k'
      | some t ↦ (push_page t (zone, i) >>= λ _. claim_pages rounds (some t) zone (i + 1)) k'
    ]

-- `memset(paddr, 0, len)`
unfoldable pub zero_bytes : ℕ → ℕ → Kernel → Kernel
zero_bytes paddr len k = record k {
  bytes = λ a. if leb paddr a && ltb a (paddr + len) then 0 else k.bytes a;
}

-- What `pm_alloc` does with the outcome of its search; 0 says that no zone has room.
unfoldable pub take_found :
    ℕ → Option ℕ → AllocFlags → Option (record { zone : ℕ; start : ℕ; paddr : ℕ }) → M ℕ
take_found num_pages owner flags none = pure 0
take_found num_pages owner flags (some found) = do
  claim_pages num_pages owner found.zone found.start
  modify (if flags.zeroed then zero_bytes found.paddr (page_size * num_pages) else (λ k. k))
  pure found.paddr

unfoldable pub pm_alloc : ℕ → Option ℕ → AllocFlags → M ℕ
unfolding align_up find_free claim_pages zero_bytes take_found
pm_alloc size owner flags = do
  k ← get
  let aligned_size = align_up size
  let num_pages = aligned_size / page_size
  take_found num_pages owner flags (find_free flags aligned_size num_pages k.zones 0)

unfoldable pub free_page : PageRef → M (Unit {0})
unfolding deref modify_page remove_page
free_page p = do
  page ← deref p
  assert (not (page.ref_count == 0))
  modify (modify_page p (λ page. record page { ref_count = page.ref_count - 1 }))
  if page.ref_count - 1 == 0 then remove_page p else pure tt

unfoldable pub pm_own_page : ℕ → ℕ → M (Unit {0})
pm_own_page paddr owner = do
  found ← find_page_by_paddr paddr
  elim found [
    | none ↦ (λ k. panic)
    | some (_, p) ↦ (do
      page ← deref p
      assert (is_none page.owner)
      assert (page.ref_count == 1)
      assert (is_none page.next)
      modify (modify_page p (λ page. record page { owner = some owner }))
      push_page owner p)
  ]

-- The loop of `pm_free`, with `rounds` pages left.
unfoldable pub pm_free_loop : ℕ → ℕ → M (Unit {0})
pm_free_loop zero paddr k = done tt k
pm_free_loop (suc rounds) paddr k =
    let rest = pm_free_loop rounds (paddr + page_size) in
    (find_page_by_paddr (paddr % u32_mod) >>= λ found. elim found [
      | none ↦ (λ k. panic)
      | some (_, p) ↦ free_page p >>= λ _. rest
    ])
      k

-- `offset < size` for offsets 0, PAGE_SIZE, ...
unfoldable pub pm_free : ℕ → ℕ → M (Unit {0})
unfolding pm_free_loop
pm_free paddr size = do assert (size % page_size == 0); pm_free_loop (size / page_size) paddr

unfoldable pub pm_free_by_list : List PageRef → M (Unit {0})
pm_free_by_list [] k = done tt k
pm_free_by_list (p ∷ ps) k = (free_page p >>= λ _. pm_free_by_list ps) k

-- The check of `vm_map`: whether `task` may map the page. `page->owner->pager` reads through NULL
-- when the page belongs to the kernel.
unfoldable pub may_map : Kernel → ℕ → ZoneType → Page → Option (Result (Unit {0}))
may_map k task free page =
    if page.ref_count == 0 then some (err invalid_paddr) else elim page.owner [
      | none ↦ none
      | some owner ↦ if owner == task then some (ok tt) else elim (k.tasks owner).pager [
        | none ↦ some (err invalid_paddr)
        | some pager ↦ if pager == task then some (ok tt) else some (err invalid_paddr)
      ]
    ]
may_map k task mmio page = if page.ref_count == 0 then some (ok tt) else some (err invalid_paddr)

-- The end of `vm_map`, from what `arch_vm_map` returned: an error is passed on; a device page joins
-- the task's pages; and the page is used once more.
unfoldable pub mapped : ZoneType → ℕ → PageRef → Result (Unit {0}) → M (Result (Unit {0}))
unfolding push_page modify_page
mapped type task p r = and_ok r λ _. (do
  if is_free type then pure tt else push_page task p
  modify (modify_page p (λ page. record page { ref_count = page.ref_count + 1 }))
  pure (ok tt))

-- The program that the check lets run.
abbrev pub checked : Option (Result (Unit {0})) → M (Result (Unit {0})) → M (Result (Unit {0}))
checked none run k = panic
checked (some (err e)) run k = done (err e) k
checked (some (ok _)) run k = run k

-- `arch_vm_map` is a parameter: what it does to the kernel and whether it succeeds.
unfoldable pub vm_map :
    (ℕ → ℕ → ℕ → ℕ → M (Result (Unit {0}))) → ℕ → ℕ → ℕ → ℕ → M (Result (Unit {0}))
unfolding may_map mapped find_page_by_paddr deref
vm_map arch_vm_map task uaddr paddr attrs = do
  found ← find_page_by_paddr paddr
  k ← get
  elim found [
    | none ↦ pure (err invalid_paddr)
    | some (type, p) ↦ (do
      page ← deref p
      checked (may_map k task type page)
          (arch_vm_map task uaddr paddr attrs >>= mapped type task p))
  ]

-- `arch_vm_unmap` is a parameter like `arch_vm_map`.
unfoldable pub vm_unmap : (ℕ → ℕ → M (Result (Unit {0}))) → ℕ → ℕ → M (Result (Unit {0}))
unfolding arch_is_mappable_uaddr
vm_unmap arch_vm_unmap task uaddr =
    if not (arch_is_mappable_uaddr uaddr)
    then pure (err invalid_arg)
    else (do r ← arch_vm_unmap task uaddr; and_ok r λ _. pure (ok tt))
