-- ===== src/Kernel/Memory/Alloc.antt =====
-- `pm_alloc` of kernel/memory.c as a whole.
use microkernel_book.Base.{
  ℕ, ◌+◌, ◌*◌, ◌/◌, ◌≤◌, ◌<◌, ◌≡◌, refl, ap, ◌∙◌, Bool, true, false, Option, none, some,
  if◌then◌else◌, get_elem?,
}
use microkernel_book.Kernel.State.{Kernel, Page, PageRef, Zone, page_size}
use microkernel_book.Kernel.Monad.{done, and_then, modify, pure, ◌>>◌}
use microkernel_book.Kernel.Memory.{
  read_page, has_page, AllocFlags, align_up, paddr_of, find_free, take_found, pm_alloc, zero_bytes,
  claim_pages,
}
use microkernel_book.Kernel.Memory.Find.{IsPlace, Found, NoneBefore}
use microkernel_book.Kernel.Memory.Claim.{pages_of, Claimed}

-- A page in a task's list is in use.
abbrev pub InUse : Kernel → Option ℕ → Type 0
InUse k owner =
    (p : PageRef) (page : Page)
    → has_page p (pages_of k owner) ≡ true
    → read_page k p ≡ some page
    → (page.ref_count ≡ 0)
    → ⊥

-- The number of pages of a request.
abbrev pub page_count : ℕ → ℕ
page_count size = align_up size / page_size

-- The pages behind a request that succeeded, and its bytes, zeroed if that was asked for.
abbrev pub zeroed_if : Bool → ℕ → ℕ → Kernel → Kernel
zeroed_if z paddr len k = if z then zero_bytes paddr len k else k

-- The two outcomes of `pm_alloc`, from the outcome of its search.
module _ (size : ℕ) (owner : Option ℕ) (flags : AllocFlags) (k : Kernel) where
  pm_alloc-take_found :
      (o : Option Found)
      → find_free flags (align_up size) (page_count size) k.zones 0 ≡ o
      → pm_alloc size owner flags k ≡ take_found (page_count size) owner flags o k
  unfolding pm_alloc
  pm_alloc-take_found o e = ap (λ f. take_found (page_count size) owner flags f k) e

  pub pm_alloc-none :
      find_free flags (align_up size) (page_count size) k.zones 0 ≡ none
      → pm_alloc size owner flags k ≡ done 0 k
  unfolding take_found
  pm_alloc-none e = pm_alloc-take_found none e

  pub pm_alloc-some :
      (found : Found) (k' : Kernel)
      → find_free flags (align_up size) (page_count size) k.zones 0 ≡ some found
      → claim_pages (page_count size) owner found.zone found.start k ≡ done tt k'
      → pm_alloc size owner flags k
        ≡ done found.paddr (zeroed_if flags.zeroed found.paddr (page_size * page_count size) k')
  unfolding take_found
  pm_alloc-some found k' e c =
      pm_alloc-take_found (some found) e
      ∙ ap
          (λ o. and_then o λ _.
            modify (
              if flags.zeroed
              then zero_bytes found.paddr (page_size * page_count size)
              else (λ k. k))
            >> pure found.paddr)
          c
      ∙ by_flag flags.zeroed
    where
      by_flag :
          (z : Bool)
          → done found.paddr
              ((if z then zero_bytes found.paddr (page_size * page_count size) else (λ k. k)) k')
            ≡ done found.paddr (zeroed_if z found.paddr (page_size * page_count size) k')
      by_flag true = refl
      by_flag false = refl

-- What `pm_alloc` did when it returns the address of a range.
pub record Allocated (size : ℕ) (owner : Option ℕ) (flags : AllocFlags) (k k' : Kernel) (paddr : ℕ)
    : Type 0 where
  pub n : ℕ
  pub start : ℕ
  pub zone : Zone
  pub claimed : Kernel
  pub is_zone : get_elem? k.zones n ≡ some zone
  pub address : paddr ≡ paddr_of zone start
  pub place : IsPlace flags (align_up size) (page_count size) zone start
  pub inside : start + page_count size ≤ zone.num_pages
  pub pages : Claimed k claimed owner n start (page_count size)
  pub bytes : k' ≡ zeroed_if flags.zeroed paddr (page_size * page_count size) claimed

-- A zone and a page of it from which on the request has a place in the zone.
abbrev pub Place : ℕ → AllocFlags → Kernel → Type 0
Place size flags k =
    (n : ℕ) × (zone : Zone) × (start : ℕ) × (get_elem? k.zones n ≡ some zone)
    × IsPlace flags (align_up size) (page_count size) zone start
    × (start + page_count size ≤ zone.num_pages)

-- No place in a zone comes before page `start` of zone `n`, whose pages are free up to the zone's
-- end but too few: the search goes on behind the zone's last page.
pub record Overrun (size : ℕ) (flags : AllocFlags) (k : Kernel) : Type 0 where
  pub n : ℕ
  pub start : ℕ
  pub zone : Zone
  pub is_zone : get_elem? k.zones n ≡ some zone
  pub within : start < zone.num_pages
  pub too_few : zone.num_pages < start + page_count size
  pub free_to_end : (i : ℕ) → start + i < zone.num_pages → (zone.pages (start + i)).ref_count ≡ 0
  pub first : NoneBefore flags (align_up size) (page_count size) k.zones n start
