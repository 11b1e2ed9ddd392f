-- ===== src/Malloc/Calls.antt =====
-- What malloc, free and realloc of malloc.c do to the memory that the program uses.
use microkernel_book.Base.{
  ℕ, ◌+◌, ◌-◌, ◌^◌, ◌≤◌, ◌<◌, ◌≡◌, ◌≢◌, ◌⊎◌, inl, inr, refl, ap, ◌∙◌, arith, false, List, [], ◌∷◌,
  ◌==◌, ◌||◌, has, has-append, leb, Bool-cases, ==_iff,
}
use microkernel_book.Bytes.{memcpy}
use microkernel_book.Bytes.Copy.{copied, memcpy-copied}
use microkernel_book.Malloc.{
  Heap, done, stopped, header_size, malloc_free, malloc_in_use, release, get_chunk_from_ptr, free,
  realloc,
}
use microkernel_book.Malloc.Tiles.{Tiles-apart}
use microkernel_book.Malloc.Invariant.{IsHeap, IsLive, live-not_free, release-IsHeap, bytes-IsHeap}
use microkernel_book.Malloc.Regions.{Allocated, size_of, size_of-ge, malloc-Allocated}

-- The data area of the chunk `c` and the whole of the chunk `d` have no byte in common.
abbrev pub Apart : Heap → ℕ → ℕ → Type 0
Apart h c d =
    (c + header_size + (h.chunks c).capacity ≤ d) ⊎ (d + header_size + (h.chunks d).capacity ≤ c)

pub live-Apart :
    {lo hi : ℕ} {cs : List ℕ} {h : Heap} (v : IsHeap lo hi cs h) (c d : ℕ)
    → IsLive cs h c
    → IsLive cs h d
    → c ≢ d
    → Apart h c d
live-Apart {lo} {hi} {cs} {h} v c d lc ld ne =
    Tiles-apart h.chunks lo cs hi c d v.tiles lc.present ld.present ne

-- The bytes of the area of `d` are the same in both heaps.
abbrev pub SameBytes : Heap → Heap → ℕ → Type 0
SameBytes h h' d =
    (a : ℕ)
    → d + header_size ≤ a
    → a < d + header_size + (h.chunks d).capacity
    → h'.bytes a ≡ h.bytes a

module _ {lo hi : ℕ} {cs : List ℕ} {h h' : Heap} {size c : ℕ} (r : Allocated lo hi cs h size c h')
    (d : ℕ) where
  pub kept-ne : IsHeap lo hi cs h → IsLive cs h d → c ≢ d
  kept-ne v l e = cc (e, r.was_free, live-not_free v d l)

  pub kept-SameBytes : IsHeap lo hi cs h → IsLive cs h d → SameBytes h h' d
  kept-SameBytes v l a from to =
      let k = r.kept d l in
      let room : size ≤ (h'.chunks c).capacity =
        rw (← r.sized) (r.heap.fits c r.live.present r.live.in_use) in
      r.zeros a ∙ elim (live-Apart r.heap c d r.live k.0 (kept-ne v l)) [
        | inl before ↦ ground (arith, from, before, room)
        | inr behind ↦ ground (arith, to, rw k.1 at behind)
      ]

pub free_live :
    (h : Heap) (ptr : ℕ)
    → (h.chunks (ptr - header_size)).magic ≡ malloc_in_use
    → free ptr h ≡ done tt (release (ptr - header_size) h)
unfolding free get_chunk_from_ptr
free_live h ptr used = rw used (rw used refl)

-- The chunk `c` is marked as free and joins the free list; nothing else changes.
pub record Freed (h : Heap) (c : ℕ) (h' : Heap) : Type 0 where
  pub marked : (h'.chunks c).magic ≡ malloc_free
  pub room : (h'.chunks c).capacity ≡ (h.chunks c).capacity
  pub listed : (d : ℕ) → has d h'.free_chunks ≡ (d == c || has d h.free_chunks)
  pub others : (d : ℕ) → d ≢ c → h'.chunks d ≡ h.chunks d
  pub bytes : (a : ℕ) → h'.bytes a ≡ h.bytes a

release-Freed : (h : Heap) (c : ℕ) → Freed h c (release c h)
release-Freed h c = record {
  marked = ground arith;
  room = ground arith;
  listed = λ d. has-append d h.free_chunks (c ∷ []) ∙ ground arith;
  others = λ d ne. ground (arith, ne);
  bytes = λ a. refl;
}

free_refused :
    (h : Heap) (ptr : ℕ)
    → (h.chunks (ptr - header_size)).magic ≢ malloc_in_use
    → free ptr h ≡ stopped
unfolding free get_chunk_from_ptr
free_refused h ptr other =
    elim (Bool-cases ((h.chunks (ptr - header_size)).magic == malloc_in_use)) [
      | inl same ↦ absurd (other ((==_iff _ _).0 same))
      | inr no_match ↦ rw no_match refl
    ]

-- `free` of a pointer to a chunk in use marks the chunk as free, puts it into the free list,
-- changes no other chunk and no byte, and leaves a well-formed heap, in which another `free` of the
-- pointer stops the program; so does `free` of any pointer whose chunk is not marked as in use.
pub free_lem :
    {lo hi : ℕ} {cs : List ℕ} {h : Heap} (ptr : ℕ)
    → IsHeap lo hi cs h
    → (IsLive cs h (ptr - header_size)
        → (h' : Heap) × (free ptr h ≡ done tt h')
          × IsHeap lo hi cs h'
          × Freed h (ptr - header_size) h'
          × (free ptr h' ≡ stopped))
      × ((h.chunks (ptr - header_size)).magic ≢ malloc_in_use → free ptr h ≡ stopped)
free_lem {h = h} ptr v = (
  λ l.
      let c = ptr - header_size in
      let freed = release-Freed h c in
      (
        release c h,
        free_live h ptr l.in_use,
        release-IsHeap v c l,
        freed,
        free_refused (release c h) ptr (λ e. absurd (omega (arith, e, freed.marked))),
      ),
  free_refused h ptr,
)

-- The memory of the chunk `c` moved to the chunk `d`.
pub record Moved (lo hi : ℕ) (cs : List ℕ) (h : Heap) (size c d : ℕ) (h' : Heap) : Type 0 where
  pub chunks : List ℕ
  pub heap : IsHeap lo hi chunks h'
  pub live : IsLive chunks h' d
  pub fresh : (e : ℕ) → IsLive cs h e → d ≢ e
  pub sized : (h'.chunks d).size ≡ size
  pub copied :
      (i : ℕ)
      → i < (h.chunks c).size
      → h'.bytes (d + header_size + i) ≡ h.bytes (c + header_size + i)
  pub kept :
      (e : ℕ)
      → IsLive cs h e
      → e ≢ c
      → IsLive chunks h' e × (h'.chunks e ≡ h.chunks e) × SameBytes h h' e

-- The heap behind the copy, where the old chunk is free again.
abbrev moved : ℕ → ℕ → Heap → ℕ → Heap
moved c d h len =
    release c (record h { bytes = memcpy h.bytes (d + header_size) (c + header_size) len })

module _ {lo hi : ℕ} {cs : List ℕ} {h h1 : Heap} {size c d : ℕ} (v : IsHeap lo hi cs h)
    (l : IsLive cs h c) (r : Allocated lo hi cs h size d h1)
    (more : (h.chunks c).capacity < size) where
  copy_room : ((h.chunks c).size ≤ (h.chunks c).capacity) × (size ≤ (h1.chunks d).capacity)
  copy_room =
      (v.fits c l.present l.in_use, rw (← r.sized) (r.heap.fits d r.live.present r.live.in_use))

  copy_apart :
      (d + header_size ≤ c + header_size) ⊎ (c + header_size + (h.chunks c).size ≤ d + header_size)
  copy_apart =
      let k = r.kept c l in
      elim (live-Apart r.heap d c r.live k.0 (kept-ne r c v l)) [
        | inl before ↦ inl (omega (arith, before))
        | inr behind ↦ inr (omega (arith, (rw k.1 at behind), copy_room.0))
      ]

  copied_lem :
      (a : ℕ)
      → (moved c d h1 (h.chunks c).size).bytes a
        ≡ copied h1.bytes (d + header_size) (c + header_size) (h.chunks c).size a
  copied_lem a =
      memcpy-copied (h.chunks c).size h1.bytes (d + header_size) (c + header_size) a copy_apart

  moved-SameBytes : (e : ℕ) → IsLive cs h e → SameBytes h (moved c d h1 (h.chunks c).size) e
  moved-SameBytes e le a from to =
      let k = r.kept e le in
      copied_lem a
      ∙ elim (live-Apart r.heap d e r.live k.0 (kept-ne r e v le)) [
        | inl before ↦ ground (arith, from, before, copy_room, more)
        | inr behind ↦ ground (arith, to, rw k.1 at behind)
      ]
      ∙ kept-SameBytes r e v le a from to

  moved-Moved : Moved lo hi cs h size c d (moved c d h1 (h.chunks c).size)
  moved-Moved =
      let h2 : Heap = record h1 {
        bytes = memcpy h1.bytes (d + header_size) (c + header_size) (h.chunks c).size;
      } in
      let ne = kept-ne r c v l in
      let old = r.kept c l in
      record {
        chunks = r.chunks;
        heap =
            release-IsHeap (bytes-IsHeap h2.bytes r.heap) c
              (record { present = old.0.present; in_use = old.0.in_use });
        live = record { present = r.live.present; in_use = ground (arith, ne, r.live.in_use) };
        fresh = λ e le. kept-ne r e v le;
        sized = ground (arith, ne, r.sized);
        copied = λ i below.
            copied_lem (d + header_size + i)
            ∙ (let e : h1.bytes (c + header_size + (d + header_size + i - (d + header_size)))
                    ≡ h1.bytes (c + header_size + i) =
                  ap h1.bytes (omega arith) in
                ground (arith, below, e))
            ∙ kept-SameBytes r c v l (c + header_size + i) (omega arith)
                (omega (arith, below, copy_room.0));
        kept = λ e le ne_c.
            let k = r.kept e le in
            (
              record { present = k.0.present; in_use = ground (arith, k.0.in_use, ne_c) },
              ground (arith, ne_c, k.1),
              moved-SameBytes e le,
            );
      }

-- `realloc` of a chunk in use to at most 2^32 - 8 bytes: if the chunk is large enough, the pointer
-- and the heap stay; else it stops, or moves to a chunk that was not in use: the heap is
-- well-formed, the bytes up to the recorded size are copied, and the other chunks in use keep their
-- headers and their bytes.
pub realloc_lem :
    {lo hi : ℕ} {cs : List ℕ} {h : Heap} (c size : ℕ)
    → IsHeap lo hi cs h
    → IsLive cs h c
    → size ≤ 2 ^ 32 - 8
    → ((size ≤ (h.chunks c).capacity)
        × (realloc (c + header_size) size h ≡ done (c + header_size) h))
      ⊎ ((h.chunks c).capacity < size)
        × ((realloc (c + header_size) size h ≡ stopped)
            ⊎ ((d : ℕ) × (h' : Heap) × (realloc (c + header_size) size h
                  ≡ done (d + header_size) h')
                × Moved lo hi cs h (size_of size) c d h'))
unfolding realloc get_chunk_from_ptr
realloc_lem {lo} {hi} {cs} {h} c size v l small =
    let nonzero : (c + header_size == 0) ≡ false = ground arith in
    let back : c + header_size - header_size ≡ c = omega arith in
    elim (Bool-cases (leb size (h.chunks c).capacity)) [
      | inl enough ↦ inl (ground (arith, enough), rw (nonzero, back, l.in_use, enough) refl)
      | inr less ↦ inr (
        ground (arith, less),
        elim (malloc-Allocated v size small) [
          | inl (d, h1, e, r) ↦
              let old = r.kept c l in
              let used : (h1.chunks (c + header_size - header_size)).magic ≡ malloc_in_use =
                rw back old.0.in_use in
              let h2 : Heap = record h1 {
                bytes = memcpy h1.bytes (d + header_size) (c + header_size) (h.chunks c).size;
              } in
              let freed : free (c + header_size) h2 ≡ done tt (release c h2) =
                free_live h2 (c + header_size) used ∙ ap (λ b. done tt (release b h2)) back in
              inr (
                d,
                moved c d h1 (h.chunks c).size,
                rw (nonzero, back, l.in_use, less, e, freed) refl,
                moved-Moved v l r (ground (arith, less, size_of-ge size)),
              )
          | inr (full, _) ↦ inl (rw (nonzero, back, l.in_use, less, full) refl)
        ],
      )
    ]
