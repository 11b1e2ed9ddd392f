-- ===== src/Malloc.antt =====
-- libs/user/malloc.c and malloc.h. The heap is a map from the addresses of chunks to their headers,
-- the free list as the sequence of its chunks, and the bytes of the data areas. Numbers of type
-- `size_t` are 32-bit.
pub mod Tiles
pub mod Invariant
pub mod Regions
pub mod Calls
pub mod Runs
pub mod Tests
use microkernel_book.Base.{
  ℕ, zero, suc, ◌+◌, ◌-◌, ◌*◌, ◌/◌, ◌%◌, ◌^◌, Bool, true, false, ◌&&◌, Option, none, some, List, [],
  ◌∷◌, ◌++◌, ◌==◌, ltb, leb, if◌then◌else◌, update, erase,
}
use microkernel_book.Bytes.{Bytes, memset, memcpy}

abbrev pub malloc_free : ℕ
malloc_free = 0x0a11_0ced

abbrev pub malloc_in_use : ℕ
malloc_in_use = 0xdea1_10cd

-- `sizeof(struct malloc_chunk)`: two pointers, three words and four bytes of padding.
abbrev pub header_size : ℕ
header_size = 24

pub record Chunk : Type 0 where
  pub capacity : ℕ
  pub size : ℕ
  pub magic : ℕ

pub record Heap : Type 0 where
  pub chunks : ℕ → Chunk
  pub free_chunks : List ℕ
  pub bytes : Bytes

-- `stopped` is a failed assertion or a panic.
pub data Outcome (A : Type 0) : Type 0 where
  done : A → Heap → Outcome A
  stopped : Outcome A

abbrev pub M : Type 0 → Type 0
M A = Heap → Outcome A

module _ {A B : Type 0} where
  abbrev pub and_then : Outcome A → (A → M B) → Outcome B
  and_then (done a h) f = f a h
  and_then stopped f = stopped

  infixl 5 ◌>>=◌ ◌>>◌
  abbrev pub ◌>>=◌ : M A → (A → M B) → M B
  ◌>>=◌ m f h = and_then (m h) f

  abbrev pub ◌>>◌ : M A → M B → M B
  ◌>>◌ m n h = and_then (m h) λ _. n

abbrev pub pure : {A : Type 0} → A → M A
pure a h = done a h

abbrev pub get : M Heap
get h = done h h

abbrev pub modify : (Heap → Heap) → M (Unit {0})
modify f h = done tt (f h)

abbrev pub assert : Bool → M (Unit {0})
assert true h = done tt h
assert false h = stopped

-- `ALIGN_UP(size, 8)` of a 32-bit number.
abbrev pub align_up8 : ℕ → ℕ
align_up8 size = (size + 7) % 2 ^ 32 / 8 * 8

-- The new chunk's header, and its place at the end of the free list.
abbrev pub add_chunk : ℕ → ℕ → Heap → Heap
add_chunk ptr len h = record h {
  chunks =
      update h.chunks ptr (record { capacity = len - header_size; size = 0; magic = malloc_free });
  free_chunks = h.free_chunks ++ ptr ∷ [];
}

unfoldable pub insert : ℕ → ℕ → M (Unit {0})
insert ptr len = do assert (ltb header_size len); modify (add_chunk ptr len)

abbrev pub set_capacity : ℕ → ℕ → Heap → Heap
set_capacity chunk len h = record h {
  chunks = update h.chunks chunk (record (h.chunks chunk) { capacity = len });
}

unfoldable pub split : ℕ → ℕ → M (Unit {0})
unfolding insert
split chunk len = do
  h ← get
  let capacity = (h.chunks chunk).capacity
  assert (leb ((len + header_size + 8) % 2 ^ 32) capacity)
  let new_chunk_size = capacity - len
  let new_chunk = chunk + header_size + (capacity - new_chunk_size)
  modify (set_capacity chunk len)
  insert new_chunk new_chunk_size

-- The chunk is marked, taken from the free list, and filled with zeros.
abbrev pub take_chunk : ℕ → ℕ → Heap → Heap
take_chunk chunk size h = record h {
  chunks = update h.chunks chunk (record (h.chunks chunk) { magic = malloc_in_use; size = size });
  free_chunks = erase chunk h.free_chunks;
  bytes = memset h.bytes (chunk + header_size) 0 size;
}

-- The body of the loop for a chunk that is large enough.
unfoldable pub allocate : ℕ → ℕ → M ℕ
unfolding split
allocate chunk size = do
  h ← get
  (if leb ((size + header_size + 8) % 2 ^ 32) (h.chunks chunk).capacity
      then split chunk size
      else pure tt)
  modify (take_chunk chunk size)
  pure (chunk + header_size)

-- The loop over the free list; behind its end the program panics.
unfoldable pub malloc_loop : ℕ → List ℕ → M ℕ
unfolding allocate
malloc_loop size [] h = stopped
malloc_loop size (chunk ∷ rest) h =
    let next = malloc_loop size rest h in
    if (h.chunks chunk).magic == malloc_free
    then (if leb size (h.chunks chunk).capacity then allocate chunk size h else next)
    else stopped

unfoldable pub malloc : ℕ → M ℕ
unfolding malloc_loop
malloc size = do h ← get; malloc_loop (align_up8 (if size == 0 then 1 else size)) h.free_chunks

unfoldable pub get_chunk_from_ptr : ℕ → M ℕ
get_chunk_from_ptr ptr = do
  h ← get
  let chunk = ptr - header_size
  assert ((h.chunks chunk).magic == malloc_in_use)
  pure chunk

abbrev pub release : ℕ → Heap → Heap
release chunk h = record h {
  chunks = update h.chunks chunk (record (h.chunks chunk) { magic = malloc_free });
  free_chunks = h.free_chunks ++ chunk ∷ [];
}

unfoldable pub free : ℕ → M (Unit {0})
unfolding get_chunk_from_ptr
free ptr = do
  chunk ← get_chunk_from_ptr ptr
  h ← get
  (if (h.chunks chunk).magic == malloc_free then (λ _. stopped) else modify (release chunk))

-- `ptr` is 0 for NULL.
unfoldable pub realloc : ℕ → ℕ → M ℕ
unfolding get_chunk_from_ptr
realloc ptr size = if ptr == 0 then malloc size else (do
  chunk ← get_chunk_from_ptr ptr
  h ← get
  let prev_size = (h.chunks chunk).size
  if leb size (h.chunks chunk).capacity then pure ptr else (do
    new_ptr ← malloc size
    modify (λ h. record h { bytes = memcpy h.bytes new_ptr ptr prev_size })
    free ptr
    pure new_ptr))

-- The heap of a program that starts: one chunk.
unfoldable pub malloc_init : ℕ → ℕ → M (Unit {0})
unfolding insert
malloc_init heap heap_end = insert heap (heap_end - heap)
