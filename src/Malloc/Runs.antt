-- ===== src/Malloc/Runs.antt =====
-- Programs that call malloc, free and realloc of malloc.c.
use microkernel_book.Base.{
  ℕ, ◌+◌, ◌-◌, ◌%◌, ◌^◌, ◌≤◌, ◌<◌, ◌≡◌, ◌≢◌, ◌⊎◌, inl, inr, refl, sym, ◌∙◌, arith, true, false,
  List, [], ◌∷◌, ◌==◌, ltb, has, erase, Distinct, Bool-cases, ==_iff, has-erase_ne, has-erase_self,
  erase-Distinct,
}
use microkernel_book.Malloc.{
  Heap, done, header_size, release, add_chunk, malloc, free, realloc, insert, malloc_init,
}
use microkernel_book.Malloc.Tiles.{Tiles-bounds}
use microkernel_book.Malloc.Invariant.{IsHeap, IsLive, release-IsHeap}
use microkernel_book.Malloc.Regions.{Allocated, malloc-Allocated}
use microkernel_book.Malloc.Calls.{live-Apart, kept-ne, free_live, realloc_lem, Moved}

-- The heaps that calls lead to from the start of the program, with the pointers that it holds.
pub data Run (lo hi : ℕ) : Heap → List ℕ → Type 0 where
  started :
      (h0 : Heap) {h : Heap}
      → h0.free_chunks ≡ []
      → malloc_init lo hi h0 ≡ done tt h
      → Run lo hi h []
  allocated :
      {h h' : Heap} {ps : List ℕ} {p : ℕ} (size : ℕ)
      → Run lo hi h ps
      → size ≤ 2 ^ 32 - 8
      → malloc size h ≡ done p h'
      → Run lo hi h' (p ∷ ps)
  freed :
      {h h' : Heap} {ps : List ℕ} (p : ℕ)
      → Run lo hi h ps
      → has p ps ≡ true
      → free p h ≡ done tt h'
      → Run lo hi h' (erase p ps)
  resized :
      {h h' : Heap} {ps : List ℕ} {q : ℕ} (p size : ℕ)
      → Run lo hi h ps
      → has p ps ≡ true
      → size ≤ 2 ^ 32 - 8
      → realloc p size h ≡ done q h'
      → Run lo hi h' (q ∷ erase p ps)

-- The pointers are those of chunks in use, each once.
pub record IsHeld (cs : List ℕ) (h : Heap) (ps : List ℕ) : Type 0 where
  pub distinct : Distinct ps
  pub live : (p : ℕ) → has p ps ≡ true → (header_size ≤ p) × IsLive cs h (p - header_size)

abbrev pub Safe : ℕ → ℕ → Heap → List ℕ → Type 0
Safe lo hi h ps = (cs : List ℕ) × IsHeap lo hi cs h × IsHeld cs h ps

done-heap : {A : Type 0} (a b : A) (h k : Heap) → done a h ≡ done b k → h ≡ k
done-heap a b h k e = cc

done-value : {A : Type 0} (a b : A) (h k : Heap) → done a h ≡ done b k → a ≡ b
done-value a b h k e = cc

started-Safe :
    {lo hi : ℕ} (h0 : Heap) {h : Heap}
    → 8 ≤ lo
    → hi < 2 ^ 32
    → lo % 8 ≡ 0
    → hi % 8 ≡ 0
    → h0.free_chunks ≡ []
    → malloc_init lo hi h0 ≡ done tt h
    → Safe lo hi h []
unfolding malloc_init insert
started-Safe {lo} {hi} h0 {h} low high al ah empty e =
    elim (Bool-cases (ltb header_size (hi - lo))) [
      | inr none_left ↦ cc (rw none_left at e)
      | inl room ↦
          let h1 : Heap = add_chunk lo (hi - lo) h0 in
          let same : h ≡ h1 = sym (done-heap tt tt h1 h (rw room at e)) in
          rw same (
            lo ∷ [],
            record {
              tiles = (refl, ground (arith, room));
              bottom = low;
              top = high;
              distinct = rw empty (refl, tt);
              tiled = λ c hc. rw empty at hc;
              marked = λ c hc. inl (ground (arith, hc), rw empty hc);
              fits = λ c hc used. ground (arith, hc);
              aligned = λ c hc. ground (arith, hc, al, ah, room);
            },
            record { distinct = tt; live = λ p hp. cc },
          )
    ]

-- A pointer and its chunk.
chunk_of : (c : ℕ) → c + header_size - header_size ≡ c
chunk_of c = omega arith

erased :
    (p q : ℕ) (ps : List ℕ) → Distinct ps → has q (erase p ps) ≡ true → (q ≢ p) × (has q ps ≡ true)
erased p q ps d h = elim (Bool-cases (q == p)) [
  | inl same ↦ cc (rw ((==_iff q p).0 same) at h, has-erase_self p ps d)
  | inr other ↦
      let ne : q ≢ p = λ e. ground (arith, other, e) in (ne, sym (has-erase_ne q p ps ne) ∙ h)
]

module _ {cs : List ℕ} {h : Heap} {ps : List ℕ} (held : IsHeld cs h ps) where
  -- A pointer to a chunk that no pointer of the program has is not one of them.
  new_pointer : (c : ℕ) → ((e : ℕ) → IsLive cs h e → c ≢ e) → has (c + header_size) ps ≡ false
  new_pointer c fresh = elim (Bool-cases (has (c + header_size) ps)) [
    | inl old ↦ absurd (
        fresh (c + header_size - header_size) (held.live (c + header_size) old).1
          (sym (chunk_of c)))
    | inr new ↦ new
  ]

  -- Holding a new pointer, where the chunks of the others are still in use.
  extended :
      {cs' : List ℕ} {h' : Heap} (c : ℕ)
      → ((e : ℕ) → IsLive cs h e → c ≢ e)
      → IsLive cs' h' c
      → ((p : ℕ) → has p ps ≡ true → IsLive cs' h' (p - header_size))
      → IsHeld cs' h' ((c + header_size) ∷ ps)
  extended {cs'} {h'} c fresh l kept = record {
    distinct = (new_pointer c fresh, held.distinct);
    live = λ p hp. elim (Bool-cases (p == c + header_size)) [
      | inl same ↦ rw ((==_iff p (c + header_size)).0 same) (omega arith, rw (chunk_of c) l)
      | inr other ↦
          let old : has p ps ≡ true = ground (arith, hp, other) in ((held.live p old).0, kept p old)
    ];
  }

  -- Without a pointer.
  reduced : (p : ℕ) → IsHeld cs h (erase p ps)
  reduced p = record {
    distinct = erase-Distinct p ps held.distinct;
    live = λ q hq. held.live q (erased p q ps held.distinct hq).1;
  }

  other_chunk :
      (p q : ℕ) → has p ps ≡ true → has q (erase p ps) ≡ true → q - header_size ≢ p - header_size
  other_chunk p q hp hq e =
      let r = erased p q ps held.distinct hq in
      r.0 (omega (arith, e, (held.live p hp).0, (held.live q r.1).0))

module _ {lo hi : ℕ} {cs : List ℕ} {h : Heap} {ps : List ℕ} (v : IsHeap lo hi cs h)
    (held : IsHeld cs h ps) where
  allocated-Safe :
      {size c : ℕ} {h' : Heap}
      → Allocated lo hi cs h size c h'
      → Safe lo hi h' ((c + header_size) ∷ ps)
  allocated-Safe {c = c} a = (
    a.chunks,
    a.heap,
    extended held c (λ e l. kept-ne a e v l) a.live
        (λ p hp. (a.kept (p - header_size) (held.live p hp).1).0),
  )

  freed-Safe : (p : ℕ) → has p ps ≡ true → Safe lo hi (release (p - header_size) h) (erase p ps)
  freed-Safe p hp = (
    cs,
    release-IsHeap v (p - header_size) (held.live p hp).1,
    record {
      distinct = erase-Distinct p ps held.distinct;
      live = λ q hq.
          let l = (reduced held p).live q hq in
          let ne = other_chunk held p q hp hq in
          (l.0, record { present = l.1.present; in_use = ground (arith, ne, l.1.in_use) });
    },
  )

  resized-Safe :
      {size d : ℕ} {h' : Heap} (p : ℕ)
      → has p ps ≡ true
      → Moved lo hi cs h size (p - header_size) d h'
      → Safe lo hi h' ((d + header_size) ∷ erase p ps)
  resized-Safe {d = d} p hp m = (
    m.chunks,
    m.heap,
    extended (reduced held p) d m.fresh m.live (λ q hq.
        (m.kept (q - header_size) ((reduced held p).live q hq).1 (other_chunk held p q hp hq)).0),
  )

  -- A pointer that `realloc` returns as it is.
  same-Safe : (p : ℕ) → has p ps ≡ true → Safe lo hi h (p ∷ erase p ps)
  same-Safe p hp = (
    cs,
    v,
    record {
      distinct = (has-erase_self p ps held.distinct, erase-Distinct p ps held.distinct);
      live = λ q hq. held.live q (elim (Bool-cases (q == p)) [
        | inl same ↦ rw ((==_iff q p).0 same) hp
        | inr other ↦ (erased p q ps held.distinct (ground (arith, hq, other))).1
      ]);
    },
  )

pub Run-Safe :
    {lo hi : ℕ} {h : Heap} {ps : List ℕ}
    → 8 ≤ lo
    → hi < 2 ^ 32
    → lo % 8 ≡ 0
    → hi % 8 ≡ 0
    → Run lo hi h ps
    → Safe lo hi h ps
Run-Safe low high al ah (started h0 empty e) = started-Safe h0 low high al ah empty e
Run-Safe low high al ah (allocated {h} {h'} {ps} {p} size r small e) =
    let (cs, v, held) = Run-Safe low high al ah r in
    elim (malloc-Allocated v size small) [
      | inl (c, h2, e2, a) ↦
          rw
            (
              done-value p (c + header_size) h' h2 (sym e ∙ e2),
              done-heap p (c + header_size) h' h2 (sym e ∙ e2),
            )
            (allocated-Safe v held a)
      | inr (full, _) ↦ cc
    ]
Run-Safe low high al ah (freed {h} {h'} {ps} p r hp e) =
    let (cs, v, held) = Run-Safe low high al ah r in
    rw
      (done-heap tt tt h' (release (p - header_size) h)
        (sym e ∙ free_live h p (held.live p hp).1.in_use))
      (freed-Safe v held p hp)
Run-Safe low high al ah (resized {h} {h'} {ps} {q} p size r hp small e) =
    let (cs, v, held) = Run-Safe low high al ah r in
    let back : p - header_size + header_size ≡ p = omega (arith, (held.live p hp).0) in
    elim (realloc_lem (p - header_size) size v (held.live p hp).1 small) [
      | inl (_, e2) ↦
          let e3 = sym e ∙ (rw back at e2) in
          rw (done-value q p h' h e3, done-heap q p h' h e3) (same-Safe v held p hp)
      | inr (_, inl stop) ↦ cc (e, rw back at stop)
      | inr (_, inr (d, h2, e2, m)) ↦
          let e3 = sym e ∙ (rw back at e2) in
          rw (done-value q (d + header_size) h' h2 e3, done-heap q (d + header_size) h' h2 e3)
            (resized-Safe v held p hp m)
    ]

-- The capacity of the chunk that a pointer belongs to.
abbrev pub capacity_of : Heap → ℕ → ℕ
capacity_of h p = (h.chunks (p - header_size)).capacity

-- In every heap that a program reaches from `malloc_init` by calls of malloc, free and realloc on
-- pointers that it holds, with sizes of at most 2^32 - 8 bytes, where the heap starts and ends at
-- multiples of 8 below 2^32, not before address 8: a pointer that it holds is a multiple of 8, its
-- whole area lies in the heap, and the area and the header of any other pointer that it holds do
-- not overlap it.
pub Run-Separate :
    {lo hi : ℕ} {h : Heap} {ps : List ℕ} (p q : ℕ)
    → 8 ≤ lo
    → hi < 2 ^ 32
    → lo % 8 ≡ 0
    → hi % 8 ≡ 0
    → Run lo hi h ps
    → has p ps ≡ true
    → (p % 8 ≡ 0)
      × (lo + header_size ≤ p)
      × (p + capacity_of h p ≤ hi)
      × (has q ps ≡ true
          → p ≢ q
          → (p + capacity_of h p + header_size ≤ q) ⊎ (q + capacity_of h q + header_size ≤ p))
Run-Separate {lo} {hi} {h} p q low high al ah r hp =
    let (cs, v, held) = Run-Safe low high al ah r in
    let (above, l) = held.live p hp in
    let inside = Tiles-bounds h.chunks lo cs hi (p - header_size) v.tiles l.present in
    (
      omega (arith, above, (v.aligned (p - header_size) l.present).0),
      omega (arith, above, inside.0),
      omega (arith, above, inside.1),
      λ hq ne.
          let other = held.live q hq in
          elim (live-Apart v (p - header_size) (q - header_size) l other.1
            (λ e. ne (omega (arith, e, above, other.0)))) [
              | inl before ↦ inl (omega (arith, before, above, other.0))
              | inr behind ↦ inr (omega (arith, behind, above, other.0))
            ],
    )
