-- ===== src/Dmabuf/Tests.antt =====
-- dmabuf.c on a buffer of three entries, the first in use.
use microkernel_book.Base.{ℕ, ◌≡◌, ◌⊎◌, arith, refl, false, none, some, ◌==◌}
use microkernel_book.Dmabuf.{Dmabuf, dmabuf_create, dmabuf_alloc}
use microkernel_book.Dmabuf.Entries.{IsBuffer, FirstFree, Full, Handed, dmabuf_alloc_lem}

abbrev entries : Dmabuf
entries = record {
  paddr = 8192;
  uaddr = 40960;
  entry_size = 516;
  num_entries = 3;
  used = λ k. k == 0;
}

entries-IsBuffer : IsBuffer entries
entries-IsBuffer = record { sized = omega arith; physical = omega arith; virtual = omega arith }

dmabuf_alloc_lem_example :
    ((i : ℕ) × FirstFree 3 0 (λ k. k == 0) i × Handed entries i)
    ⊎ ((dmabuf_alloc entries ≡ (none, entries)) × Full 3 0 λ k. k == 0)
dmabuf_alloc_lem_example = dmabuf_alloc_lem entries entries-IsBuffer

-- Sizes are rounded up to words, and the area to pages.
asked :
    dmabuf_create (λ size flags. some (size, flags)) 514 8
    ≡ some
        (record { paddr = 6; uaddr = 8192; entry_size = 516; num_entries = 8; used = λ _. false })
unfolding dmabuf_create
asked = refl
