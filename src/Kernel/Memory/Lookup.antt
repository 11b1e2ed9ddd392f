-- ===== src/Kernel/Memory/Lookup.antt =====
-- `find_page_by_paddr` of kernel/memory.c.
use microkernel_book.Base.{
  ℕ, zero, suc, ◌+◌, ◌-◌, ◌*◌, ◌/◌, ◌%◌, ◌≤◌, ◌<◌, ◌≡◌, ◌⊎◌, ap, ◌∙◌, true, false, some, List, [],
  ◌∷◌, arith, get_elem?,
}
use microkernel_book.Kernel.State.{Kernel, Zone, page_size, u32_mod}
use microkernel_book.Kernel.Monad.{done}
use microkernel_book.Kernel.Memory.{in_zone, find_page_loop, find_page_by_paddr, paddr_of}

-- A zone starts at a page boundary and ends within the address space.
abbrev pub Fits : Zone → Type 0
Fits z = (z.base % page_size ≡ 0) × (z.base + z.num_pages * page_size < u32_mod)

abbrev pub Apart : Zone → List Zone → Type 0
Apart z [] = Unit {0}
Apart z (y ∷ ys) =
    ((z.base + z.num_pages * page_size ≤ y.base) ⊎ (y.base + y.num_pages * page_size ≤ z.base))
    × Apart z ys

-- The zones fit the address space and do not overlap.
abbrev pub ZonesWf : List Zone → Type 0
ZonesWf [] = Unit {0}
ZonesWf (z ∷ zs) = Fits z × Apart z zs × ZonesWf zs

-- The address of page `i` of a zone, without the wrap of the 32-bit sum.
abbrev page_addr : Zone → ℕ → ℕ
page_addr z i = z.base + i * page_size

Apart-of :
    (z y : Zone) (zs : List Zone) (j : ℕ)
    → Apart z zs
    → get_elem? zs j ≡ some y
    → (z.base + z.num_pages * page_size ≤ y.base) ⊎ (y.base + y.num_pages * page_size ≤ z.base)
Apart-of z y [] j a e = cc
Apart-of z y (x ∷ xs) zero a e = ground (arith, a)
Apart-of z y (x ∷ xs) (suc j) a e = Apart-of z y xs j a.1 e

pub Fits-of : (y : Zone) (zs : List Zone) (j : ℕ) → ZonesWf zs → get_elem? zs j ≡ some y → Fits y
Fits-of y [] j w e = cc
Fits-of y (x ∷ xs) zero w e = ground (arith, w)
Fits-of y (x ∷ xs) (suc j) w e = Fits-of y xs j w.2 e

in_zone_self : (z : Zone) (i : ℕ) → Fits z → i < z.num_pages → in_zone z (page_addr z i) ≡ true
unfolding in_zone
in_zone_self z i f h =
    let e : (z.base + z.num_pages * page_size) % u32_mod ≡ z.base + z.num_pages * page_size =
      omega arith in
    ground arith

index_of : (b i : ℕ) → (b + i * page_size - b) / page_size ≡ i
index_of b i = omega arith

in_zone_other :
    (z y : Zone) (i : ℕ)
    → Fits z
    → i < y.num_pages
    → (z.base + z.num_pages * page_size ≤ y.base) ⊎ (y.base + y.num_pages * page_size ≤ z.base)
    → in_zone z (page_addr y i) ≡ false
unfolding in_zone
in_zone_other z y i f h a =
    let e : (z.base + z.num_pages * page_size) % u32_mod ≡ z.base + z.num_pages * page_size =
      omega arith in
    ground arith

find_page_loop-page_addr :
    (zs : List Zone) (n j i : ℕ) (y : Zone)
    → ZonesWf zs
    → get_elem? zs j ≡ some y
    → i < y.num_pages
    → find_page_loop zs n (page_addr y i) ≡ some (y.type, (n + j, i))
unfolding find_page_loop
find_page_loop-page_addr [] n j i y w e h = cc
find_page_loop-page_addr (z ∷ zs) n zero i y w e h =
    let same : y ≡ z = ground (arith, e) in
    let inside : i < z.num_pages = ground (arith, same, h) in
    rw (same, in_zone_self z i w.0 inside)
      (ap (λ m. some (z.type, (m, (page_addr z i - z.base) / page_size))) (omega arith)
        ∙ ap (λ m. some (z.type, (n + 0, m))) (index_of z.base i))
find_page_loop-page_addr (z ∷ zs) n (suc j) i y w e h =
    let out = in_zone_other z y i w.0 h (Apart-of z y zs j w.1 e) in
    rw out (
      find_page_loop-page_addr zs (n + 1) j i y w.2 e h
      ∙ ap (λ m. some (y.type, (m, i))) (omega arith))

-- If the zones fit the address space and do not overlap, `find_page_by_paddr` of the address of a
-- page of a zone ends without a failed assertion and gives that very page and the zone's type.
pub find_page_by_paddr-paddr_of :
    (k : Kernel) (n i : ℕ) (y : Zone)
    → ZonesWf k.zones
    → get_elem? k.zones n ≡ some y
    → i < y.num_pages
    → find_page_by_paddr (paddr_of y i) k ≡ done (some (y.type, (n, i))) k
unfolding find_page_by_paddr
find_page_by_paddr-paddr_of k n i y w e h =
    let f : Fits y = Fits-of y k.zones n w e in
    let addr : paddr_of y i ≡ page_addr y i = omega arith in
    let aligned : page_addr y i % page_size ≡ 0 = omega arith in
    rw (addr, aligned)
      (ap (λ o. done o k)
        (find_page_loop-page_addr k.zones 0 n i y w e h
          ∙ ap (λ m. some (y.type, (m, i))) (omega arith)))
