-- ===== src/Malloc/Tests.antt =====
-- The allocator of malloc.c on a heap of 4096 bytes.
use microkernel_book.Base.{
  ℕ, ◌+◌, ◌-◌, ◌≤◌, ◌≡◌, ◌≢◌, ◌⊎◌, ◌<◌, refl, true, arith, [], ◌∷◌, has, ◌%◌,
}
use microkernel_book.Malloc.{
  Heap, header_size, malloc_in_use, add_chunk, done, stopped, malloc, free, realloc, malloc_init,
  release, insert, take_chunk, set_capacity,
}
use microkernel_book.Malloc.Invariant.{IsHeap, IsLive}
use microkernel_book.Malloc.Regions.{Gives, malloc-Allocated, size_of}
use microkernel_book.Malloc.Calls.{Freed, free_lem, realloc_lem, Moved}
use microkernel_book.Malloc.Runs.{Run, Run-Safe, Safe, Run-Separate, capacity_of}

abbrev empty : Heap
empty = record {
  chunks = λ _. record { capacity = 0; size = 0; magic = 0 };
  free_chunks = [];
  bytes = λ _. 255;
}

abbrev fresh : Heap
fresh = add_chunk 4096 4096 empty

fresh-Run : Run 4096 8192 fresh []
unfolding malloc_init insert
fresh-Run = Run.started empty refl refl

-- The heap after `malloc(100)`: the first chunk is cut.
abbrev used : Heap
used = take_chunk 4096 104 (add_chunk 4224 3968 (set_capacity 4096 104 fresh))

used-Run : Run 4096 8192 used (4120 ∷ [])
unfolding malloc
used-Run = Run.allocated 100 fresh-Run (omega arith) refl

-- And after `malloc(10)`.
abbrev both : Heap
both = take_chunk 4224 16 (add_chunk 4264 3928 (set_capacity 4224 16 used))

both-Run : Run 4096 8192 both (4248 ∷ 4120 ∷ [])
unfolding malloc
both-Run = Run.allocated 10 used-Run (omega arith) refl

Run-Separate_example :
    (4120 % 8 ≡ 0)
    × (4096 + header_size ≤ 4120)
    × (4120 + capacity_of both 4120 ≤ 8192)
    × (has 4248 (4248 ∷ 4120 ∷ []) ≡ true
        → ◌≢◌ {A = ℕ} 4120 4248
        → (4120 + capacity_of both 4120 + header_size ≤ 4248)
          ⊎ (4248 + capacity_of both 4248 + header_size ≤ 4120))
Run-Separate_example = Run-Separate 4120 4248 (omega arith) (omega arith) refl refl both-Run refl

double_free : free 4120 (release 4096 used) ≡ stopped
unfolding free
double_free = refl

used-Safe : Safe 4096 8192 used (4120 ∷ [])
used-Safe = Run-Safe (omega arith) (omega arith) refl refl used-Run

malloc-Allocated_example :
    Gives 4096 8192 (used-Safe.0) used (size_of 10) (malloc 10 used)
    ⊎ ((malloc 10 used ≡ stopped)
        × ((c : ℕ) → has c used.free_chunks ≡ true → (used.chunks c).capacity < size_of 10))
malloc-Allocated_example = malloc-Allocated used-Safe.1 10 (omega arith)

free_lem_example :
    (IsLive used-Safe.0 used (4120 - header_size)
      → (h' : Heap) × (free 4120 used ≡ done tt h')
        × IsHeap 4096 8192 used-Safe.0 h'
        × Freed used (4120 - header_size) h'
        × (free 4120 h' ≡ stopped))
    × ((used.chunks (4120 - header_size)).magic ≢ malloc_in_use → free 4120 used ≡ stopped)
free_lem_example = free_lem 4120 used-Safe.1

-- To 200 bytes: the memory moves.
realloc_lem_example :
    ((200 ≤ (used.chunks 4096).capacity)
      × (realloc (4096 + header_size) 200 used ≡ done (4096 + header_size) used))
    ⊎ ((used.chunks 4096).capacity < 200)
      × ((realloc (4096 + header_size) 200 used ≡ stopped)
          ⊎ ((d : ℕ) × (h' : Heap) × (realloc (4096 + header_size) 200 used
                ≡ done (d + header_size) h')
              × Moved 4096 8192 used-Safe.0 used (size_of 200) 4096 d h'))
realloc_lem_example = realloc_lem 4096 200 used-Safe.1 (used-Safe.2.live 4120 refl).1 (omega arith)
