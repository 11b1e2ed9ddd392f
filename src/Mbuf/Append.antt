-- ===== src/Mbuf/Append.antt =====
-- servers/tcpip/mbuf.c: chains from bytes, and bytes added to chains.
use microkernel_book.Base.{
  ℕ, zero, suc, ◌+◌, ◌-◌, ◌%◌, ◌^◌, ◌≤◌, ◌<◌, min, ◌≡◌, refl, sym, ap, ◌∙◌, inl, inr, arith, List,
  [], ◌∷◌, ◌++◌, append_assoc, append-nil, Option, none, some, Bool-cases, ◌==◌,
}
use microkernel_book.Mbuf.Ops.{
  Mbuf, mbuf_max_len, bytes_at, copy_to, mbuf_alloc, linked, appended, new_loop, mbuf_new,
  mbuf_append, append_at, mbuf_append_bytes,
}
use microkernel_book.Mbuf.Contents.{
  bytes_of, contents, InBounds, AllInBounds, bytes_at-add, copy_to-bytes_at, copy_to-below,
}

-- The chain is there, is not empty, is in bounds and holds the bytes.
abbrev pub Holds : List ℕ → Option (List Mbuf) → Type 0
Holds bytes none = ⊥
Holds bytes (some []) = ⊥
Holds bytes (some (m ∷ rest)) = AllInBounds (m ∷ rest) × (contents (m ∷ rest) ≡ bytes)

linked-Holds :
    (m : Mbuf) (o : Option (List Mbuf)) (xs ys : List ℕ)
    → InBounds m
    → bytes_of m ≡ xs
    → Holds ys o
    → Holds (xs ++ ys) (linked m o)
linked-Holds m none xs ys b e h = absurd h
linked-Holds m (some []) xs ys b e h = absurd h
linked-Holds m (some (n ∷ rest)) xs ys b e (bs, es) = ((b, bs), λ i. e i ++ es i)

-- The mbuf that a round of `mbuf_new` fills.
piece-bytes :
    (src : ℕ → ℕ) (p n : ℕ) → bytes_at (copy_to (λ i. 0) 0 src p n) 0 (n - 0) ≡ bytes_at src p n
piece-bytes src p n =
    ap (bytes_at (copy_to (λ i. 0) 0 src p n) 0) (omega arith) ∙ copy_to-bytes_at (λ i. 0) 0 src p n

split_bytes :
    (src : ℕ → ℕ) (p n len : ℕ)
    → n ≤ len
    → bytes_at src p n ++ bytes_at src (p + n) (len - n) ≡ bytes_at src p len
split_bytes src p n len h = sym (bytes_at-add src p n (len - n)) ∙ ap (bytes_at src p) (omega arith)

new_loop-Holds :
    (rounds : ℕ) (src : ℕ → ℕ) (p len : ℕ)
    → len < rounds
    → Holds (bytes_at src p len) (new_loop rounds src p len)
unfolding new_loop mbuf_alloc
new_loop-Holds zero src p len h = absurd (omega arith)
new_loop-Holds (suc rounds) src p len h = elim (Bool-cases (len - min len mbuf_max_len == 0)) [
  | inl last ↦ rw last (
    ((omega arith, omega arith), tt),
    append-nil _ ∙ piece-bytes src p _ ∙ ap (bytes_at src p) (ground arith),
  )
  | inr more ↦
      rw (more, ← split_bytes src p (min len mbuf_max_len) len (omega arith))
        (linked-Holds _ _ _ _ (omega arith, omega arith) (piece-bytes src p _)
          (new_loop-Holds rounds src (p + min len mbuf_max_len) (len - min len mbuf_max_len)
            (ground arith)))
]

-- `mbuf_new` ends for every length: the chain that it makes is in bounds and holds exactly the
-- bytes given.
pub mbuf_new-Holds : (src : ℕ → ℕ) (p len : ℕ) → Holds (bytes_at src p len) (mbuf_new src p len)
unfolding mbuf_new
mbuf_new-Holds src p len = new_loop-Holds (len + 1) src p len (omega arith)

pub contents-mbuf_append :
    (m : Mbuf) (rest tail : List Mbuf)
    → contents (mbuf_append m rest tail) ≡ contents (m ∷ rest) ++ contents tail
unfolding mbuf_append
contents-mbuf_append m [] tail = ap (λ xs. xs ++ contents tail) (sym (append-nil (bytes_of m)))
contents-mbuf_append m (next ∷ rest) tail =
    ap (λ xs. bytes_of m ++ xs) (contents-mbuf_append next rest tail)
    ∙ sym (append_assoc (bytes_of m) (contents (next ∷ rest)) (contents tail))

pub mbuf_append-AllInBounds :
    (m : Mbuf) (rest tail : List Mbuf)
    → AllInBounds (m ∷ rest)
    → AllInBounds tail
    → AllInBounds (mbuf_append m rest tail)
unfolding mbuf_append
mbuf_append-AllInBounds m [] tail (b, bs) t = (b, t)
mbuf_append-AllInBounds m (next ∷ rest) tail (b, bs) t =
    (b, mbuf_append-AllInBounds next rest tail bs t)

appended-Holds :
    (m : Mbuf) (o : Option (List Mbuf)) (xs ys : List ℕ)
    → InBounds m
    → bytes_of m ≡ xs
    → Holds ys o
    → Holds (xs ++ ys) (appended m o)
unfolding mbuf_append
appended-Holds m none xs ys b e h = absurd h
appended-Holds m (some []) xs ys b e h = absurd h
appended-Holds m (some (n ∷ rest)) xs ys b e (bs, es) = ((b, bs), λ i. e i ++ es i)

-- The last mbuf with `n` bytes added.
abbrev filled : Mbuf → (ℕ → ℕ) → ℕ → ℕ → Mbuf
filled m src p n = record m {
  offset_end = (m.offset_end + n) % 2 ^ 16;
  bytes = copy_to m.bytes m.offset_end src p n;
}

module _ (m : Mbuf) (src : ℕ → ℕ) (p n : ℕ) (b : InBounds m)
    (room : m.offset_end + n ≤ mbuf_max_len) where
  filled-InBounds : InBounds (filled m src p n)
  filled-InBounds = (omega (arith, b.0, b.1, room), omega (arith, b.0, b.1, room))

  filled-bytes : bytes_of (filled m src p n) ≡ bytes_of m ++ bytes_at src p n
  filled-bytes =
      let new = copy_to m.bytes m.offset_end src p n in
      let size : (m.offset_end + n) % 2 ^ 16 - m.offset ≡ (m.offset_end - m.offset) + n =
        omega (arith, b.0, b.1, room) in
      let back : m.offset + (m.offset_end - m.offset) ≡ m.offset_end =
        omega (arith, b.0, b.1, room) in
      ap (bytes_at new m.offset) size ∙ bytes_at-add new m.offset (m.offset_end - m.offset) n ∙ λ i.
      copy_to-below m.bytes m.offset_end src p n m.offset (m.offset_end - m.offset)
        (omega (arith, back)) i
      ++ (ap (λ x. bytes_at new x n) back ∙ copy_to-bytes_at m.bytes m.offset_end src p n) i

append_at-Holds :
    (m : Mbuf) (src : ℕ → ℕ) (p len : ℕ)
    → InBounds m
    → Holds (bytes_of m ++ bytes_at src p len) (append_at m src p len)
unfolding append_at
append_at-Holds m src p len b =
    let avail = (mbuf_max_len + 2 ^ 32 - m.offset_end) % 2 ^ 32 in
    let n = min len avail in
    let room : m.offset_end + n ≤ mbuf_max_len = omega (arith, b.0, b.1) in
    let split : (bytes_of m ++ bytes_at src p n) ++ bytes_at src (p + n) (len - n)
        ≡ bytes_of m ++ bytes_at src p len =
      append_assoc (bytes_of m) _ _
      ∙ ap (λ xs. bytes_of m ++ xs) (split_bytes src p n len (omega arith)) in
    elim (Bool-cases (len - n == 0)) [
      | inl all ↦
          let whole : n ≡ len = ground (arith, all) in
          rw all (
            (filled-InBounds m src p n b room, tt),
            append-nil _
                ∙ filled-bytes m src p n b room
                ∙ ap (λ k. bytes_of m ++ bytes_at src p k) whole,
          )
      | inr more ↦
          rw (more, ← split)
            (appended-Holds (filled m src p n) (mbuf_new src (p + n) (len - n)) _ _
              (filled-InBounds m src p n b room) (filled-bytes m src p n b room)
              (mbuf_new-Holds src (p + n) (len - n)))
    ]

-- `mbuf_append_bytes` to a chain in bounds ends, and the chain that it leaves is in bounds and
-- holds the old bytes and then the new ones.
pub mbuf_append_bytes-Holds :
    (m : Mbuf) (rest : List Mbuf) (src : ℕ → ℕ) (p len : ℕ)
    → AllInBounds (m ∷ rest)
    → Holds (contents (m ∷ rest) ++ bytes_at src p len) (mbuf_append_bytes m rest src p len)
unfolding mbuf_append_bytes
mbuf_append_bytes-Holds m [] src p len (b, _) =
    rw (append-nil (bytes_of m)) (append_at-Holds m src p len b)
mbuf_append_bytes-Holds m (next ∷ rest) src p len (b, bs) =
    rw (append_assoc (bytes_of m) (contents (next ∷ rest)) (bytes_at src p len))
      (linked-Holds m _ _ _ b refl (mbuf_append_bytes-Holds next rest src p len bs))
