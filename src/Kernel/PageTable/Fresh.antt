-- ===== src/Kernel/PageTable/Fresh.antt =====
-- A page that `pm_alloc` gives for a table of kernel/riscv32/vm.c.
use microkernel_book.Base.{
  ℕ, ◌+◌, ◌*◌, ◌%◌, ◌^◌, ◌<◌, ◌≡◌, ◌≢◌, ◌⊎◌, inl, inr, refl, sym, ap, ◌∙◌, arith, true, none, some,
  ◌==◌, ==_iff, Bool-cases, Option-cases, get_elem?, get_elem?-modify_at_self,
  get_elem?-modify_at_ne, update,
}
use microkernel_book.Bytes.Words.{load32, load32-congr}
use microkernel_book.Kernel.State.{Kernel, Page, Zone, page_size}
use microkernel_book.Kernel.Monad.{done}
use microkernel_book.Kernel.Memory.{
  is_free, pm_alloc, find_free, align_up, paddr_of, modify_page, zero_bytes, claim_pages,
  find_page_by_paddr,
}
use microkernel_book.Kernel.Memory.Alloc.{page_count, pm_alloc-none, pm_alloc-some}
use microkernel_book.Kernel.Memory.Find.{find_free-from, find_free-none}
use microkernel_book.Kernel.Memory.Lookup.{ZonesWf, Fits-of, find_page_by_paddr-paddr_of}
use microkernel_book.Kernel.PageTable.{zeroed}
use microkernel_book.Kernel.PageTable.Walk.{IsUsed}

-- The zones fit the address space, do not overlap, and do not start at address 0.
pub record IsMemory (k : Kernel) : Type 0 where
  pub wf : ZonesWf k.zones
  pub positive : (n : ℕ) (z : Zone) → get_elem? k.zones n ≡ some z → 0 < z.base

abbrev pub new_page : Page
new_page = record { owner = none; ref_count = 1; next = none }

-- The kernel behind the allocation of one page for itself.
abbrev pub with_page : ℕ → ℕ → ℕ → Kernel → Kernel
with_page n i p k = zero_bytes p page_size (modify_page (n, i) (λ _. new_page) k)

-- A free page.
pub record IsFree (k : Kernel) (n i : ℕ) (z : Zone) : Type 0 where
  pub is_zone : get_elem? k.zones n ≡ some z
  pub within : i < z.num_pages
  pub unused : (z.pages i).ref_count ≡ 0

one_page :
    (k : Kernel) (n i : ℕ)
    → claim_pages (page_count page_size) none n i k ≡ done tt (modify_page (n, i) (λ _. new_page) k)
unfolding claim_pages align_up
one_page k n i = refl

-- No zone of free memory has a free page.
abbrev pub NoFreePage : Kernel → Type 0
NoFreePage k = (n i : ℕ) (z : Zone) → is_free z.type ≡ true → ¬ IsFree k n i z

page_alloc-none :
    (k : Kernel)
    → find_free zeroed (align_up page_size) (page_count page_size) k.zones 0 ≡ none
    → NoFreePage k
unfolding align_up
page_alloc-none k e n i z ram f =
    find_free-none zeroed (align_up page_size) (page_count page_size) k.zones 0 e n z i f.is_zone
      (record {
        is_ram = ram;
        within = f.within;
        all_free = λ j h. ap (λ s. (z.pages s).ref_count) (omega arith) ∙ f.unused;
        aligned = λ a. cc;
      })

pub page_alloc :
    (k : Kernel)
    → ((pm_alloc page_size none zeroed k ≡ done 0 k) × NoFreePage k)
      ⊎ ((n i : ℕ) × (z : Zone) × IsFree k n i z
          × (pm_alloc page_size none zeroed k
              ≡ done (paddr_of z i) (with_page n i (paddr_of z i) k)))
unfolding align_up
page_alloc k =
    elim (Option-cases (find_free zeroed (align_up page_size) (page_count page_size) k.zones 0)) [
      | inl e ↦ inl (pm_alloc-none page_size none zeroed k e, page_alloc-none k e)
      | inr (found, e) ↦
          let (j, zone, at, g, p, place, _) =
            find_free-from zeroed (align_up page_size) (page_count page_size) k.zones 0 found e in
          let here : get_elem? k.zones found.zone ≡ some zone = ground (arith, at, g) in
          let free : (zone.pages found.start).ref_count ≡ 0 =
            ap (λ s. (zone.pages s).ref_count) (omega arith) ∙ place.all_free 0 (omega arith) in
          inr (
            found.zone,
            found.start,
            zone,
            record { is_zone = here; within = place.within; unused = free },
            pm_alloc-some page_size none zeroed k found _ e (one_page k found.zone found.start)
                ∙ ap (λ q. done q (with_page found.zone found.start q k)) p,
          )
    ]

module _ (k : Kernel) (n i : ℕ) (z : Zone) (f : IsFree k n i z) (mem : IsMemory k) where
  pub new-aligned : (paddr_of z i % page_size ≡ 0) × (0 < paddr_of z i) × (paddr_of z i < 2 ^ 32)
  new-aligned =
      let fits = Fits-of z k.zones n mem.wf f.is_zone in
      let positive = mem.positive n z f.is_zone in
      (omega (arith, fits, f.within), omega (arith, fits, f.within, positive), omega arith)

  -- It is not a page in use.
  pub new-ne : (p : ℕ) → IsUsed k p → paddr_of z i ≢ p
  new-ne p u e =
      let here = find_page_by_paddr-paddr_of k n i z mem.wf f.is_zone f.within in
      let there = find_page_by_paddr-paddr_of k u.n u.i u.zone mem.wf u.is_zone u.within in
      let both = sym here ∙ ap (λ a. find_page_by_paddr a k) (e ∙ u.address) ∙ there in
      let same_zone : n ≡ u.n = cc both in
      let same_index : i ≡ u.i = cc both in
      let same : z ≡ u.zone = cc (f.is_zone, u.is_zone, same_zone) in
      u.counted (rw (← same, ← same_index) f.unused)

  pub used-kept : (p q : ℕ) → IsUsed k p → IsUsed (with_page n i q k) p
  unfolding modify_page zero_bytes
  used-kept p q u = elim (Bool-cases (u.n == n)) [
    | inl same ↦
        let e = (==_iff u.n n).0 same in
        let zone' : Zone = record u.zone { pages = update u.zone.pages i new_page } in
        record {
          n = n;
          i = u.i;
          zone = zone';
          is_zone = get_elem?-modify_at_self k.zones n _ (rw e at u.is_zone);
          within = u.within;
          address = u.address;
          counted = λ zero_count. elim (Bool-cases (u.i == i)) [
            | inl here ↦ cc (rw here at zero_count)
            | inr away ↦ u.counted (rw away at zero_count)
          ];
        }
    | inr other ↦ record {
      n = u.n;
      i = u.i;
      zone = u.zone;
      is_zone = get_elem?-modify_at_ne k.zones n u.n _ (λ e. ground (arith, other, e)) ∙ u.is_zone;
      within = u.within;
      address = u.address;
      counted = u.counted;
    }
  ]

  pub new-IsUsed : (q : ℕ) → IsUsed (with_page n i q k) (paddr_of z i)
  unfolding modify_page zero_bytes
  new-IsUsed q = record {
    n = n;
    i = i;
    zone = record z { pages = update z.pages i new_page };
    is_zone = get_elem?-modify_at_self k.zones n _ f.is_zone;
    within = f.within;
    address = refl;
    counted = ground arith;
  }

  pub new-zero : (q b : ℕ) → b < 1024 → load32 (with_page n i q k).bytes (q + 4 * b) ≡ 0
  unfolding zero_bytes load32
  new-zero q b h = ground (arith, h)

  pub old-bytes :
      (p q b : ℕ)
      → p % page_size ≡ 0
      → q % page_size ≡ 0
      → q ≢ p
      → b < 1024
      → load32 (with_page n i q k).bytes (p + 4 * b) ≡ load32 k.bytes (p + 4 * b)
  unfolding zero_bytes modify_page
  old-bytes p q b hp hq ne hb =
      load32-congr k.bytes (with_page n i q k).bytes (p + 4 * b)
        λ a from to. ground (arith, hp, hq, ne, hb, from, to)
