-- ===== src/Mbuf/Ops.antt =====
-- servers/tcpip/mbuf.c: the operations. A `size_t` is a 32-bit word, and `offset` and `offset_end`
-- are 16-bit words.
use microkernel_book.Base.{
  ℕ, zero, suc, ◌+◌, ◌-◌, ◌%◌, ◌^◌, min, Bool, ◌&&◌, Option, none, some, List, [], ◌∷◌, ◌++◌, ◌==◌,
  ltb, leb, if◌then◌else◌,
}

-- 512 - (sizeof(struct mbuf *) + 2 * sizeof(uint16_t))
abbrev pub mbuf_max_len : ℕ
mbuf_max_len = 504

-- `struct mbuf`, without `next`.
pub record Mbuf : Type 0 where
  pub offset : ℕ
  pub offset_end : ℕ
  pub bytes : ℕ → ℕ

-- `memcpy` of `len` bytes from `src` on to `old[dst]` on.
abbrev pub copy_to : (ℕ → ℕ) → ℕ → (ℕ → ℕ) → ℕ → ℕ → ℕ → ℕ
copy_to old dst src at len i =
    if leb dst i && ltb i (dst + len) then src (at + (i - dst)) else old i

-- The bytes at `at` to `at + len - 1`.
unfoldable pub bytes_at : (ℕ → ℕ) → ℕ → ℕ → List ℕ
bytes_at bytes at zero = []
bytes_at bytes at (suc len) = bytes at ∷ bytes_at bytes (at + 1) len

-- `malloc` fills the memory that it returns with zeros.
unfoldable pub mbuf_alloc : Mbuf
mbuf_alloc = record { offset = 0; offset_end = 0; bytes = λ i. 0 }

-- `m->next = rest`, if there is a rest.
abbrev pub linked : Mbuf → Option (List Mbuf) → Option (List Mbuf)
linked m none = none
linked m (some rest) = some (m ∷ rest)

-- The loop of `mbuf_new` with `len` bytes left, from `p` on: `none` when the rounds run out.
unfoldable pub new_loop : ℕ → (ℕ → ℕ) → ℕ → ℕ → Option (List Mbuf)
unfolding mbuf_alloc
new_loop zero src p len = none
new_loop (suc rounds) src p len =
    let mbuf_len = min len mbuf_max_len in
    let new_tail = record mbuf_alloc {
      offset_end = mbuf_len;
      bytes = copy_to (λ i. 0) 0 src p mbuf_len;
    } in
    let rest = new_loop rounds src (p + mbuf_len) (len - mbuf_len) in
    if len - mbuf_len == 0 then some (new_tail ∷ []) else linked new_tail rest

-- `mbuf_new(&src[p], len)`: each round but the last copies 504 bytes.
unfoldable pub mbuf_new : (ℕ → ℕ) → ℕ → ℕ → Option (List Mbuf)
unfolding new_loop
mbuf_new src p len = new_loop (len + 1) src p len

-- The chain that starts with an mbuf, with another chain at its end.
unfoldable pub mbuf_append : Mbuf → List Mbuf → List Mbuf → List Mbuf
mbuf_append m [] new_tail = m ∷ new_tail
mbuf_append m (next ∷ rest) new_tail = m ∷ mbuf_append next rest new_tail

abbrev pub mbuf_data : Mbuf → ℕ
mbuf_data m = m.offset

unfoldable pub mbuf_len_one : Mbuf → ℕ
mbuf_len_one m = (m.offset_end + 2 ^ 32 - m.offset) % 2 ^ 32

abbrev pub appended : Mbuf → Option (List Mbuf) → Option (List Mbuf)
appended m none = none
appended m (some tail) = some (mbuf_append m [] tail)

-- The tail of `mbuf_append_bytes`, at the last mbuf of the chain.
unfoldable pub append_at : Mbuf → (ℕ → ℕ) → ℕ → ℕ → Option (List Mbuf)
unfolding mbuf_new mbuf_append
append_at m src p len =
    let avail_len = (mbuf_max_len + 2 ^ 32 - m.offset_end) % 2 ^ 32 in
    let copy_len = min len avail_len in
    let filled = record m {
      offset_end = (m.offset_end + copy_len) % 2 ^ 16;
      bytes = copy_to m.bytes m.offset_end src p copy_len;
    } in
    if len - copy_len == 0
    then some (filled ∷ [])
    else appended filled (mbuf_new src (p + copy_len) (len - copy_len))

unfoldable pub mbuf_append_bytes : Mbuf → List Mbuf → (ℕ → ℕ) → ℕ → ℕ → Option (List Mbuf)
unfolding append_at
mbuf_append_bytes m [] src p len = append_at m src p len
mbuf_append_bytes m (next ∷ rest) src p len = linked m (mbuf_append_bytes next rest src p len)

unfoldable pub mbuf_len : List Mbuf → ℕ
unfolding mbuf_len_one
mbuf_len [] = 0
mbuf_len (m ∷ rest) = (mbuf_len_one m + mbuf_len rest) % 2 ^ 32

unfoldable pub mbuf_is_empty : List Mbuf → Bool
unfolding mbuf_len
mbuf_is_empty chain = mbuf_len chain == 0

-- Some bytes of the mbuf are taken from its front.
abbrev pub advance : Mbuf → ℕ → Mbuf
advance m n = record m { offset = (m.offset + n) % 2 ^ 16 }

-- What a round of `mbuf_read` and `mbuf_discard` does: an empty mbuf that has a successor is freed,
-- or `n` bytes are taken, or the loop ends.
pub data Round : Type 0 where
  next_mbuf : Mbuf → List Mbuf → Round
  takes : ℕ → Round

unfoldable pub round : Mbuf → List Mbuf → ℕ → Round
unfolding mbuf_len_one
round m [] want = takes (min want (mbuf_len_one m))
round m (next ∷ rest) want =
    if mbuf_len_one m == 0 then next_mbuf next rest else takes (min want (mbuf_len_one m))

-- What `mbuf_read` has read, and the chain that it leaves.
pub record Reading : Type 0 where
  pub copied : List ℕ
  pub chain : List Mbuf

abbrev pub with_bytes : List ℕ → Option Reading → Option Reading
with_bytes bytes none = none
with_bytes bytes (some r) = some (record { copied = bytes ++ r.copied; chain = r.chain })

-- A round of `mbuf_read` with `want` bytes of the buffer left, in front of the later rounds.
abbrev pub read_round :
    Round → Mbuf → List Mbuf → ℕ → (Mbuf → List Mbuf → ℕ → Option Reading) → Option Reading
read_round (next_mbuf next rest') m rest want more = more next rest' want
read_round (takes zero) m rest want more = some (record { copied = []; chain = m ∷ rest })
read_round (takes (suc n)) m rest want more =
    with_bytes (bytes_at m.bytes (mbuf_data m) (suc n))
      (more (advance m (suc n)) rest (want - suc n))

-- The loop of `mbuf_read`: `none` when the rounds run out.
unfoldable pub mbuf_read : ℕ → Mbuf → List Mbuf → ℕ → Option Reading
unfolding round bytes_at
mbuf_read zero m rest want = none
mbuf_read (suc rounds) m rest want = read_round (round m rest want) m rest want (mbuf_read rounds)

-- What `mbuf_discard` returns, and the chain that it leaves.
pub record Discarding : Type 0 where
  pub count : ℕ
  pub chain : List Mbuf

abbrev pub with_count : ℕ → Option Discarding → Option Discarding
with_count n none = none
with_count n (some r) = some (record { count = n + r.count; chain = r.chain })

-- A round of `mbuf_discard` with `remaining` bytes to go, in front of the later rounds.
abbrev pub discard_round :
    Round → Mbuf → List Mbuf → ℕ → (Mbuf → List Mbuf → ℕ → Option Discarding) → Option Discarding
discard_round (next_mbuf next rest') m rest remaining more = more next rest' remaining
discard_round (takes zero) m rest remaining more = some (record { count = 0; chain = m ∷ rest })
discard_round (takes (suc n)) m rest remaining more =
    with_count (suc n) (more (advance m (suc n)) rest (remaining - suc n))

-- The loop of `mbuf_discard`: `none` when the rounds run out.
unfoldable pub mbuf_discard : ℕ → Mbuf → List Mbuf → ℕ → Option Discarding
unfolding round
mbuf_discard zero m rest remaining = none
mbuf_discard (suc rounds) m rest zero = some (record { count = 0; chain = m ∷ rest })
mbuf_discard (suc rounds) m rest (suc r) =
    discard_round (round m rest (suc r)) m rest (suc r) (mbuf_discard rounds)

-- `offset_end` of an mbuf that is cut to `len` bytes.
abbrev pub cut_end : Mbuf → ℕ → ℕ
cut_end m len = (m.offset_end + 2 ^ 32 - (mbuf_len_one m - len)) % 2 ^ 16

-- Into an mbuf that `malloc` returned.
unfoldable pub mbuf_copy_one : Mbuf → Mbuf
unfolding mbuf_len_one
mbuf_copy_one src = record {
  offset = src.offset;
  offset_end = src.offset_end;
  bytes = copy_to (λ i. 0) 0 src.bytes 0 (mbuf_len_one src);
}

-- The loop of `mbuf_peek` from an mbuf of the chain on, with an mbuf allocated for it.
unfoldable pub mbuf_peek : List Mbuf → ℕ → List Mbuf
unfolding mbuf_copy_one mbuf_alloc
mbuf_peek [] len = mbuf_alloc ∷ []
mbuf_peek (src ∷ rest) len =
    let dst = mbuf_copy_one src in
    let others = mbuf_peek rest (len - mbuf_len_one src) in
    if leb len (mbuf_len_one src)
    then record dst { offset_end = cut_end src len } ∷ []
    else dst ∷ others

unfoldable pub mbuf_truncate : List Mbuf → ℕ → List Mbuf
unfolding mbuf_len_one
mbuf_truncate [] len = []
mbuf_truncate (m ∷ rest) len =
    let others = mbuf_truncate rest (len - mbuf_len_one m) in
    if len == 0
    then m ∷ rest
    else if ltb len (mbuf_len_one m)
    then record m { offset_end = cut_end m len } ∷ []
    else m ∷ others

-- The loop of `mbuf_clone` from an mbuf on: the mbufs that it allocates, none linked to another.
unfoldable pub clone_loop : Mbuf → List Mbuf → List Mbuf
clone_loop m [] = m ∷ []
clone_loop m (next ∷ rest) = m ∷ clone_loop next rest

-- The chain that `mbuf_clone` returns: the first of them, whose `next` is NULL.
abbrev pub linked_head : List Mbuf → List Mbuf
linked_head [] = []
linked_head (head ∷ others) = head ∷ []

unfoldable pub mbuf_clone : Mbuf → List Mbuf → List Mbuf
unfolding clone_loop
mbuf_clone m rest = linked_head (clone_loop m rest)
