-- ===== src/Malloc/Regions.antt =====
-- What malloc.c hands out.
use microkernel_book.Base.{
  ℕ, zero, suc, ◌+◌, ◌-◌, ◌*◌, ◌/◌, ◌%◌, ◌^◌, ◌≤◌, ◌<◌, ◌≡◌, ◌≢◌, ◌⊎◌, inl, inr, refl, ◌∙◌, arith,
  true, List, [], ◌∷◌, ◌==◌, ltb, leb, has, has-append, Bool-cases, if◌then◌else◌, ==_iff,
}
use microkernel_book.Bytes.Copy.{filled, memset-filled}
use microkernel_book.Malloc.{
  Heap, Outcome, done, stopped, header_size, malloc_free, add_chunk, set_capacity, take_chunk,
  insert, split, allocate, malloc_loop, malloc, align_up8,
}
use microkernel_book.Malloc.Tiles.{Tiles-bounds, insert_after, has-insert_after}
use microkernel_book.Malloc.Invariant.{
  IsHeap, IsLive, free-magic, live-not_free, split_absent, split-IsHeap, take_chunk-IsHeap,
}

-- The memory of the chunk `c` was free in the heap `h` and now belongs to the program: `size` bytes
-- filled with zeros. No chunk that was in use has changed.
pub record Allocated (lo hi : ℕ) (cs : List ℕ) (h : Heap) (size c : ℕ) (h' : Heap) : Type 0 where
  pub chunks : List ℕ
  pub heap : IsHeap lo hi chunks h'
  pub was_free : has c h.free_chunks ≡ true
  pub live : IsLive chunks h' c
  pub sized : (h'.chunks c).size ≡ size
  pub kept : (d : ℕ) → IsLive cs h d → IsLive chunks h' d × (h'.chunks d ≡ h.chunks d)
  pub zeros : (a : ℕ) → h'.bytes a ≡ filled h.bytes (c + header_size) 0 size a

-- The free chunk that is large enough is given, cut if it has room for another chunk.
abbrev pub Gives : ℕ → ℕ → List ℕ → Heap → ℕ → Outcome ℕ → Type 0
Gives lo hi cs h size r =
    (c : ℕ) × (h' : Heap) × (r ≡ done (c + header_size) h') × Allocated lo hi cs h size c h'

-- The smallest multiple of 8 that is at least `size` and not 0.
abbrev pub size_of : ℕ → ℕ
size_of zero = 8
size_of (suc n) = (n / 8 + 1) * 8

pub size_of-ge : (size : ℕ) → size ≤ size_of size
size_of-ge zero = omega arith
size_of-ge (suc n) = omega arith

size_of_lem :
    (size : ℕ) → size ≤ 2 ^ 32 - 8 → align_up8 (if size == 0 then 1 else size) ≡ size_of size
size_of_lem zero h = refl
size_of_lem (suc n) h = ground (arith, h)

size_of-mod : (size : ℕ) → size_of size % 8 ≡ 0
size_of-mod zero = refl
size_of-mod (suc n) = omega arith

split_done :
    (h : Heap) (c len : ℕ)
    → len + header_size + 8 ≤ (h.chunks c).capacity
    → (h.chunks c).capacity < 2 ^ 32
    → split c len h
      ≡ done tt
          (add_chunk (c + header_size + len) ((h.chunks c).capacity - len) (set_capacity c len h))
unfolding split insert
split_done h c len room below =
    let back : (h.chunks c).capacity - ((h.chunks c).capacity - len) ≡ len = omega (arith, room) in
    let first : leb ((len + header_size + 8) % 2 ^ 32) (h.chunks c).capacity ≡ true =
      ground (arith, room, below) in
    let second : ltb header_size ((h.chunks c).capacity - len) ≡ true = ground (arith, room) in
    rw (first, back, second) refl

module _ {lo hi : ℕ} {cs : List ℕ} {h : Heap} (v : IsHeap lo hi cs h) where
  capacity_bound : (c : ℕ) → has c cs ≡ true → (h.chunks c).capacity + 32 < 2 ^ 32
  capacity_bound c hc = omega (arith, v.top, v.bottom, Tiles-bounds h.chunks lo cs hi c v.tiles hc)

module _ {lo hi : ℕ} {cs : List ℕ} {h : Heap} (v : IsHeap lo hi cs h) where
  -- Without a cut.
  take-Allocated :
      (c size : ℕ)
      → has c h.free_chunks ≡ true
      → size ≤ (h.chunks c).capacity
      → Allocated lo hi cs h size c (take_chunk c size h)
  take-Allocated c size f room = record {
    chunks = cs;
    heap = take_chunk-IsHeap v c size f room;
    was_free = f;
    live = record { present = v.tiled c f; in_use = ground arith };
    sized = ground arith;
    kept = λ d l.
        let ne : d ≢ c = λ e. cc (e, f, live-not_free v d l) in
        (record { present = l.present; in_use = ground (arith, l.in_use, ne) }, ground (arith, ne));
    zeros = λ a. memset-filled size h.bytes (c + header_size) 0 a;
  }

module _ {lo hi : ℕ} {cs : List ℕ} {h : Heap} (v : IsHeap lo hi cs h) where
  -- With a cut: `first` is the heap behind it.
  cut-Allocated :
      (c size : ℕ)
      → has c h.free_chunks ≡ true
      → size % 8 ≡ 0
      → size + header_size + 8 ≤ (h.chunks c).capacity
      → Allocated lo hi cs h size c (
          take_chunk c size (
            add_chunk
              (c + header_size + size)
              ((h.chunks c).capacity - size)
              (set_capacity c size h)))
  cut-Allocated c size f al room =
      let n = c + header_size + size in
      let h1 : Heap = add_chunk n ((h.chunks c).capacity - size) (set_capacity c size h) in
      let absent = split_absent v c size room f in
      let free1 : has c h1.free_chunks ≡ true =
        ground (arith, has-append c h.free_chunks (n ∷ []), f) in
      let r = take-Allocated (split-IsHeap v c size f al room) c size free1 (ground arith) in
      record {
        chunks = r.chunks;
        heap = r.heap;
        was_free = f;
        live = r.live;
        sized = r.sized;
        kept = λ d l.
            let ne_c : d ≢ c = λ e. cc (e, f, live-not_free v d l) in
            let ne_n : d ≢ n = λ e. cc (e, absent, l.present) in
            let same : h1.chunks d ≡ h.chunks d = ground (arith, ne_c, ne_n) in
            let there : has d (insert_after c n cs) ≡ true =
              ground (arith, has-insert_after d c n cs (v.tiled c f), l.present) in
            let k = r.kept d (record { present = there; in_use = rw same l.in_use }) in
            (k.0, k.1 ∙ same);
        zeros = r.zeros;
      }

module _ {lo hi : ℕ} {cs : List ℕ} {h : Heap} (v : IsHeap lo hi cs h) where
  allocate-Gives :
      (c size : ℕ)
      → has c h.free_chunks ≡ true
      → size % 8 ≡ 0
      → size ≤ (h.chunks c).capacity
      → Gives lo hi cs h size (allocate c size h)
  unfolding allocate
  allocate-Gives c size f al room =
      elim (Bool-cases (leb ((size + header_size + 8) % 2 ^ 32) (h.chunks c).capacity)) [
        | inl cut ↦
            let bound = capacity_bound v c (v.tiled c f) in
            let fits : size + header_size + 8 ≤ (h.chunks c).capacity =
              ground (arith, cut, bound, room) in
            let h1 : Heap =
              add_chunk (c + header_size + size) ((h.chunks c).capacity - size)
                (set_capacity c size h) in
            (
              c,
              take_chunk c size h1,
              rw (cut, split_done h c size fits (omega (arith, bound))) refl,
              cut-Allocated v c size f al fits,
            )
        | inr whole ↦ (c, take_chunk c size h, rw whole refl, take-Allocated v c size f room)
      ]

  -- The loop over the free list gives a chunk, or stops where no chunk of the list is large enough.
  loop-Gives :
      (size : ℕ) (free : List ℕ)
      → size % 8 ≡ 0
      → ((c : ℕ) → has c free ≡ true → has c h.free_chunks ≡ true)
      → Gives lo hi cs h size (malloc_loop size free h)
        ⊎ ((malloc_loop size free h ≡ stopped)
            × ((c : ℕ) → has c free ≡ true → (h.chunks c).capacity < size))
  unfolding malloc_loop
  loop-Gives size [] al sub = inr (refl, λ c e. cc)
  loop-Gives size (c ∷ rest) al sub =
      let f = sub c (ground arith) in
      let marked : ((h.chunks c).magic == malloc_free) ≡ true = (==_iff _ _).1 (free-magic v c f) in
      elim (Bool-cases (leb size (h.chunks c).capacity)) [
        | inl enough ↦
            inl (rw (marked, enough) (allocate-Gives c size f al (ground (arith, enough))))
        | inr small ↦
            rw (marked, small)
              (elim (loop-Gives size rest al (λ d hd. sub d (ground (arith, hd)))) [
                | inl g ↦ inl g
                | inr none_left ↦ inr (
                  none_left.0,
                  λ d hd. elim (Bool-cases (d == c)) [
                    | inl same ↦ rw ((==_iff d c).0 same) (ground (arith, small))
                    | inr other ↦ none_left.1 d (ground (arith, hd, other))
                  ],
                )
              ])
      ]

  -- `malloc` on a well-formed heap, for at most 2^32 - 8 bytes: it either gives a free chunk, at
  -- least as large as the size rounded up to a positive multiple of 8, leaves a well-formed heap
  -- with all chunks in use as they were, and writes zeros to exactly the given bytes; or it stops,
  -- and every free chunk is too small.
  pub malloc-Allocated :
      (size : ℕ)
      → size ≤ 2 ^ 32 - 8
      → (Gives lo hi cs h (size_of size) (malloc size h))
        ⊎ ((malloc size h ≡ stopped)
            × ((c : ℕ) → has c h.free_chunks ≡ true → (h.chunks c).capacity < size_of size))
  unfolding malloc
  malloc-Allocated size small =
      rw (size_of_lem size small)
        (loop-Gives (size_of size) h.free_chunks (size_of-mod size) (λ c f. f))
