-- ===== src/Malloc/Invariant.antt =====
-- The well-formed heaps of malloc.c: chunks fill the heap, and the free list holds the free ones.
use microkernel_book.Base.{
  ℕ, ◌+◌, ◌-◌, ◌%◌, ◌^◌, ◌≤◌, ◌<◌, ◌≡◌, ◌⊎◌, inl, inr, sym, ◌∙◌, arith, true, false, List, [], ◌∷◌,
  ◌==◌, has, Distinct, Bool-cases, ==_iff, has-append, has-erase_ne, has-erase_self, erase-Distinct,
  append-Distinct,
}
use microkernel_book.Bytes.{Bytes}
use microkernel_book.Malloc.{
  Heap, header_size, malloc_free, malloc_in_use, add_chunk, set_capacity, take_chunk, release,
}
use microkernel_book.Malloc.Tiles.{
  Tiles, Tiles-congr, Tiles-apart, Tiles-split, insert_after, has-insert_after,
}

-- A chunk is marked as free and stands in the free list, or is marked as in use and does not.
abbrev pub Marked : Heap → ℕ → Type 0
Marked h c =
    (((h.chunks c).magic ≡ malloc_free) × (has c h.free_chunks ≡ true))
    ⊎ (((h.chunks c).magic ≡ malloc_in_use) × (has c h.free_chunks ≡ false))

-- The heap from `lo` to `hi` is the chunks `cs`.
pub record IsHeap (lo hi : ℕ) (cs : List ℕ) (h : Heap) : Type 0 where
  pub tiles : Tiles h.chunks lo cs hi
  pub bottom : 8 ≤ lo
  pub top : hi < 2 ^ 32
  pub distinct : Distinct h.free_chunks
  pub tiled : (c : ℕ) → has c h.free_chunks ≡ true → has c cs ≡ true
  pub marked : (c : ℕ) → has c cs ≡ true → Marked h c
  pub fits :
      (c : ℕ)
      → has c cs ≡ true
      → (h.chunks c).magic ≡ malloc_in_use
      → (h.chunks c).size ≤ (h.chunks c).capacity
  pub aligned : (c : ℕ) → has c cs ≡ true → (c % 8 ≡ 0) × ((h.chunks c).capacity % 8 ≡ 0)

-- A chunk that the program uses.
pub record IsLive (cs : List ℕ) (h : Heap) (c : ℕ) : Type 0 where
  pub present : has c cs ≡ true
  pub in_use : (h.chunks c).magic ≡ malloc_in_use

module _ {lo hi : ℕ} {cs : List ℕ} {h : Heap} (v : IsHeap lo hi cs h) (c : ℕ) where
  -- A chunk in the free list is marked so.
  pub free-magic : has c h.free_chunks ≡ true → (h.chunks c).magic ≡ malloc_free
  free-magic f = elim (v.marked c (v.tiled c f)) [ inl m ↦ m.0 | inr m ↦ cc ]

  pub live-not_free : IsLive cs h c → has c h.free_chunks ≡ false
  live-not_free l = elim (v.marked c l.present) [
    | inl m ↦ absurd (omega (arith, m.0, l.in_use))
    | inr m ↦ m.1
  ]

  pub not_free : has c cs ≡ false → has c h.free_chunks ≡ false
  not_free absent = elim (Bool-cases (has c h.free_chunks)) [
    | inl f ↦ absurd (cc (v.tiled c f))
    | inr f ↦ f
  ]

module _ {lo hi : ℕ} {cs : List ℕ} {h : Heap} (v : IsHeap lo hi cs h) (c : ℕ) where
  -- No chunk starts inside of another one.
  pub split_absent :
      (len : ℕ)
      → len + header_size + 8 ≤ (h.chunks c).capacity
      → has c h.free_chunks ≡ true
      → has (c + header_size + len) cs ≡ false
  split_absent len room f = elim (Bool-cases (has (c + header_size + len) cs)) [
    | inl there ↦
        elim (Tiles-apart h.chunks lo cs hi c (c + header_size + len) v.tiles (v.tiled c f) there
          (omega arith)) [
            | inl behind ↦ absurd (omega (arith, behind, room))
            | inr before ↦ absurd (omega (arith, before))
          ]
    | inr absent ↦ absent
  ]

  -- The heap behind a cut of the free chunk `c`.
  pub split-IsHeap :
      (len : ℕ)
      → has c h.free_chunks ≡ true
      → len % 8 ≡ 0
      → len + header_size + 8 ≤ (h.chunks c).capacity
      → IsHeap lo hi
          (insert_after c (c + header_size + len) cs)
          (add_chunk (c + header_size + len) ((h.chunks c).capacity - len) (set_capacity c len h))
  split-IsHeap len f al room =
      let n = c + header_size + len in
      let hc = v.tiled c f in
      let grown = λ (d : ℕ). has-insert_after d c n cs hc in
      let member = λ (d : ℕ). has-append d h.free_chunks (n ∷ []) in
      let absent = split_absent len room f in
      let magic_c = free-magic v c f in
      record {
        tiles =
            Tiles-split h.chunks
              (add_chunk n ((h.chunks c).capacity - len) (set_capacity c len h)).chunks lo cs hi c
              len v.tiles hc (omega (arith, room)) (ground arith) (ground arith)
              (λ d hd ne. ground (arith, hd, ne, absent));
        bottom = v.bottom;
        top = v.top;
        distinct = append-Distinct n h.free_chunks v.distinct (not_free v n absent);
        tiled = λ d hd. ground (arith, grown d, member d, hd, v.tiled d);
        marked = λ d hd. ground (arith, grown d, member d, hd, v.marked d, magic_c, f);
        fits = λ d hd used. ground (arith, grown d, hd, used, v.fits d, magic_c);
        aligned = λ d hd. ground (arith, grown d, hd, v.aligned d, v.aligned c hc, al, room);
      }

  -- The heap behind the marks of `malloc` on the free chunk `c`.
  pub take_chunk-IsHeap :
      (size : ℕ)
      → has c h.free_chunks ≡ true
      → size ≤ (h.chunks c).capacity
      → IsHeap lo hi cs (take_chunk c size h)
  take_chunk-IsHeap size f room = record {
    tiles =
        Tiles-congr h.chunks (take_chunk c size h).chunks lo cs hi (λ d hd. ground arith) v.tiles;
    bottom = v.bottom;
    top = v.top;
    distinct = erase-Distinct c h.free_chunks v.distinct;
    tiled = λ d hd. elim (Bool-cases (d == c)) [
      | inl same ↦ rw ((==_iff d c).0 same) (v.tiled c f)
      | inr other ↦
          v.tiled d (sym (has-erase_ne d c h.free_chunks (λ e. ground (arith, other, e))) ∙ hd)
    ];
    marked = λ d hd. ground (
      arith,
      v.marked d hd,
      has-erase_ne d c h.free_chunks,
      has-erase_self c h.free_chunks v.distinct,
    );
    fits = λ d hd used. ground (arith, v.fits d hd, used);
    aligned = λ d hd. ground (arith, v.aligned d hd);
  }

  pub release-IsHeap : IsLive cs h c → IsHeap lo hi cs (release c h)
  release-IsHeap l = record {
    tiles = Tiles-congr h.chunks (release c h).chunks lo cs hi (λ d hd. ground arith) v.tiles;
    bottom = v.bottom;
    top = v.top;
    distinct = append-Distinct c h.free_chunks v.distinct (live-not_free v c l);
    tiled = λ d hd. ground (arith, hd, has-append d h.free_chunks (c ∷ []), v.tiled d, l.present);
    marked = λ d hd. ground (arith, v.marked d hd, has-append d h.free_chunks (c ∷ []));
    fits = λ d hd used. ground (arith, v.fits d hd, used);
    aligned = λ d hd. ground (arith, v.aligned d hd);
  }

-- The bytes of the data areas do not matter.
pub bytes-IsHeap :
    {lo hi : ℕ} {cs : List ℕ} {h : Heap} (m : Bytes)
    → IsHeap lo hi cs h
    → IsHeap lo hi cs (record h { bytes = m })
bytes-IsHeap m v = record {
  tiles = v.tiles;
  bottom = v.bottom;
  top = v.top;
  distinct = v.distinct;
  tiled = v.tiled;
  marked = v.marked;
  fits = v.fits;
  aligned = v.aligned;
}
