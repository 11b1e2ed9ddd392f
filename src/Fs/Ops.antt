-- ===== src/Fs/Ops.antt =====
-- servers/fs/fs.c: HinaFS on the block cache. A path or a name is the list of its characters before
-- the NUL. The bits of a bitmap byte are read by division, and a bit that is 0 is set, or one that
-- is 1 cleared, by adding or subtracting its value.
use microkernel_book.Base.{
  ℕ, zero, suc, ◌+◌, ◌-◌, ◌*◌, ◌/◌, ◌%◌, ◌^◌, min, Bool, true, false, not, ◌&&◌, ◌||◌, Option, none,
  some, List, [], ◌∷◌, ◌==◌, ltb, leb, if◌then◌else◌, update, has, get_elem?,
}
use microkernel_book.Bytes.{Bytes}
use microkernel_book.Fs.State.{
  Device, Result, ok, err, invalid_arg, not_found, not_a_file, not_a_dir, eof, no_resources, M,
  done, pure, stop, ◌>>=◌, ◌>>◌, get, modify, assert, and_ok, set_content, write16, write32,
  entry_type, entry_size, num_entries, entry_block, block_size, num_bitmap_blocks, blocks_per_entry,
  fs_type_dir, fs_type_file,
}
use microkernel_book.Fs.Cache.{block_read, block_mark_as_dirty}

abbrev pub slash : ℕ
slash = 47

abbrev pub dot : ℕ
dot = 46

abbrev pub bit_of : ℕ → ℕ → ℕ
bit_of byte k = byte / 2 ^ k % 2

-- The first bit of a byte that is 0, from bit `k` on.
unfoldable pub find_bit : ℕ → ℕ → ℕ → Option ℕ
find_bit zero byte k = none
find_bit (suc rounds) byte k =
    let rest = find_bit rounds byte (k + 1) in if bit_of byte k == 0 then some k else rest

-- The number of the bit in its block, or else what is found in the later bytes.
abbrev pub in_byte : Option ℕ → ℕ → Option ℕ → Option ℕ
in_byte (some k) j rest = some (j * 8 + k)
in_byte none j rest = rest

-- The number of the first bit that is 0 in a bitmap block, from byte `j` on.
unfoldable pub find_free_bit : ℕ → Bytes → ℕ → Option ℕ
find_free_bit zero m j = none
find_free_bit (suc rounds) m j =
    let rest = find_free_bit rounds m (j + 1) in in_byte (find_bit 8 (m j) 0) j rest

-- The write of bit `n` of a bitmap block.
abbrev pub set_bit : ℕ → Bytes → Bytes
set_bit n m = update m (n / 8) (m (n / 8) + 2 ^ (n % 8))

abbrev pub clear_bit : ℕ → Bytes → Bytes
clear_bit n m = update m (n / 8) (m (n / 8) - bit_of (m (n / 8)) (n % 8) * 2 ^ (n % 8))

-- The bit is set, and the number of its block has 16 bits.
abbrev pub take_bit : ℕ → ℕ → ℕ → M ℕ
take_bit b i n = do
  modify (set_content b (set_bit n))
  block_mark_as_dirty b
  pure ((2 + num_bitmap_blocks + (i * block_size * 8 + n)) % 2 ^ 16)

abbrev pub take_or : Option ℕ → (ℕ → M ℕ) → M ℕ → M ℕ
take_or (some n) take rest = take n
take_or none take rest = rest

-- The loop of `alloc_block` over the bitmap blocks, from block `i` on.
unfoldable pub bitmap_loop : List ℕ → ℕ → M ℕ
bitmap_loop [] i s = done 0 s
bitmap_loop (b ∷ bs) i s =
    take_or (find_free_bit block_size (s.blocks b).content 0) (take_bit b i)
      (bitmap_loop bs (i + 1)) s

unfoldable pub alloc_block : M ℕ
unfolding bitmap_loop
alloc_block = do s ← get; bitmap_loop s.bitmap_blocks 0

-- `bitmap_blocks[i]`; a place behind the array is a wild pointer.
abbrev pub with_bitmap : Option ℕ → (ℕ → M (Unit {0})) → M (Unit {0})
with_bitmap none f = stop
with_bitmap (some b) f = f b

unfoldable pub free_block : ℕ → M (Unit {0})
unfolding block_mark_as_dirty
free_block index = do
  s ← get
  with_bitmap (get_elem? s.bitmap_blocks (index / (block_size * 8)))
      λ b. (do modify (set_content b (clear_bit (index % (block_size * 8)))); block_mark_as_dirty b)

-- `strcmp(name, e->name)` is 0: the characters at `a` are those of `name` and then a NUL.
abbrev pub name_is : Bytes → ℕ → List ℕ → Bool
name_is m a [] = m a == 0
name_is m a (c ∷ cs) = m a == c && name_is m (a + 1) cs

-- The loop over the entries of a directory, from entry `i` on.
unfoldable pub find_entry : ℕ → Device → List ℕ → ℕ → ℕ → M (Result (Option ℕ))
find_entry zero dev name dir i = pure (ok none)
find_entry (suc rounds) dev name dir i =
    let rest = find_entry rounds dev name dir (i + 1) in
    (do
      s ← get
      r ← block_read dev (entry_block (s.blocks dir).content i)
      and_ok r λ eb. (do
        s ← get
        if name_is (s.blocks eb).content 4 name then pure (ok (some eb)) else rest))

-- The parts of a path between slashes.
abbrev pub before_head : ℕ → List (List ℕ) → List (List ℕ)
before_head c [] = (c ∷ []) ∷ []
before_head c (p ∷ ps) = (c ∷ p) ∷ ps

abbrev pub components : List ℕ → List (List ℕ)
components [] = [] ∷ []
components (c ∷ cs) =
    let rest = components cs in if c == slash then [] ∷ rest else before_head c rest

abbrev pub skip_slashes : List ℕ → List ℕ
skip_slashes [] = []
skip_slashes (c ∷ cs) = let rest = skip_slashes cs in if c == slash then rest else c ∷ cs

abbrev pub is_nil : {A : Type 0} → List A → Bool
is_nil [] = true
is_nil (x ∷ xs) = false

abbrev pub tail : List ℕ → List ℕ
tail [] = []
tail (c ∷ cs) = cs

-- `strlen(p) == 0 || !strcmp(p, ".")`
abbrev pub is_skipped : List ℕ → Bool
is_skipped [] = true
is_skipped (c ∷ []) = c == dot
is_skipped (c ∷ d ∷ cs) = false

-- `!strcmp(p, "..")`
abbrev pub is_parent : List ℕ → Bool
is_parent (c ∷ d ∷ []) = c == dot && d == dot
is_parent _ = false

-- What the loop of `lookup` does with the entry that it found for `p`: the string ends at its own
-- slash, so the search for another slash is in the rest of `p`.
abbrev pub found_entry :
    Bool → List ℕ → List (List ℕ) → Option ℕ → (ℕ → M (Result ℕ)) → M (Result ℕ)
found_entry parent_dir p rest none next = pure (err not_found)
found_entry parent_dir p rest (some eb) next =
    if is_nil rest || (parent_dir && not (has slash (tail p))) then pure (ok eb) else next eb

-- The loop of `lookup` over the parts of the path. Behind the last one `slash` is NULL, and a skip
-- goes on at a wild pointer.
unfoldable pub lookup_loop : Device → Bool → List (List ℕ) → ℕ → M (Result ℕ)
unfolding find_entry
lookup_loop dev parent_dir [] dir = stop
lookup_loop dev parent_dir (p ∷ rest) dir =
    let next = λ (d : ℕ). lookup_loop dev parent_dir rest d in
    if is_skipped p
    then (if is_nil rest then stop else next dir)
    else if is_parent p
    then pure (err invalid_arg)
    else (do
      s ← get
      assert (entry_type (s.blocks dir).content == fs_type_dir)
      r ← find_entry (num_entries (s.blocks dir).content) dev p dir 0
      and_ok r λ found. found_entry parent_dir p rest found next)

unfoldable pub lookup : Device → List ℕ → Bool → M (Result ℕ)
unfolding lookup_loop
lookup dev path parent_dir =
    let p = skip_slashes path in
    (do
      s ← get
      if is_nil p || (parent_dir && not (has slash p))
          then pure (ok s.root)
          else lookup_loop dev parent_dir (components p) s.root)

-- `entry->blocks[i] = index`
abbrev pub set_entry_block : ℕ → ℕ → Bytes → Bytes
set_entry_block i index = write16 (280 + 2 * i) index

-- The data block `i` of a file, allocated if it is not there.
unfoldable pub data_block : ℕ → ℕ → Bool → M (Result ℕ)
unfolding alloc_block block_mark_as_dirty
data_block eb i write = do
  s ← get
  let index = entry_block (s.blocks eb).content i
  if not (index == 0) then pure (ok index) else (do
    assert write
    index ← alloc_block
    if index == 0 then pure (err no_resources) else (do
      modify (set_content eb (set_entry_block i index))
      block_mark_as_dirty eb
      pure (ok index)))

-- `memcpy` of `len` bytes between the buffer at `at` and a block at `off`.
abbrev pub copy_range : Bytes → ℕ → Bytes → ℕ → ℕ → Bytes
copy_range into to from at len a =
    if leb to a && ltb a (to + len) then from (at + (a - to)) else into a

-- One round of `readwrite`: the copy into or from the block `db`, and the buffer behind it.
unfoldable pub copy_block : Bool → ℕ → Bytes → ℕ → ℕ → ℕ → M Bytes
unfolding block_mark_as_dirty
copy_block true db buf total_len first_offset copy_len = do
  modify (set_content db λ m. copy_range m first_offset buf total_len copy_len)
  block_mark_as_dirty db
  pure buf
copy_block false db buf total_len first_offset copy_len = do
  s ← get
  pure (copy_range buf total_len (s.blocks db).content first_offset copy_len)

-- The loop of `readwrite` from data block `i` on: the buffer and the number of bytes copied.
unfoldable pub readwrite_loop :
    ℕ → Device → ℕ → Bool → ℕ → ℕ → ℕ → ℕ → Bytes → M (Result (Bytes × ℕ))
unfolding data_block copy_block
readwrite_loop zero dev eb write size i first_offset total_len buf = pure (ok (buf, total_len))
readwrite_loop (suc rounds) dev eb write size i first_offset total_len buf =
    let copy_len = min (size - total_len) block_size in
    let rest =
      λ (b : Bytes). readwrite_loop rounds dev eb write size (i + 1) 0 (total_len + copy_len) b in
    if not (ltb total_len size) then pure (ok (buf, total_len)) else (do
      r ← data_block eb i write
      and_ok r λ index. (do
        r ← block_read dev index
        and_ok r λ db. (do b ← copy_block write db buf total_len first_offset copy_len; rest b)))

-- The end of a write: the new size.
unfoldable pub finish_write : Bool → ℕ → ℕ → M (Unit {0})
unfolding block_mark_as_dirty
finish_write false eb size = pure tt
finish_write true eb size = do modify (set_content eb (write32 260 size)); block_mark_as_dirty eb

-- The buffer behind the call.
unfoldable pub readwrite : Device → ℕ → Bytes → ℕ → ℕ → Bool → M (Result Bytes)
unfolding readwrite_loop finish_write
readwrite dev eb buf size offset write = do
  s ← get
  let entry = (s.blocks eb).content
  if not (entry_type entry == fs_type_file)
      then pure (err not_a_file)
      else (if not (ltb offset (entry_size entry) || (write && offset == entry_size entry))
          then pure (err eof)
          else (do
            let first_i = offset / block_size
            r ←
                readwrite_loop (blocks_per_entry - first_i) dev eb write size first_i
                  (offset % block_size) 0 buf
            and_ok r λ done_part. (do
              finish_write write eb ((offset + done_part.1) % 2 ^ 32)
              pure (ok done_part.0))))

unfoldable pub fs_find : Device → List ℕ → M (Result ℕ)
fs_find dev path = lookup dev path false

unfoldable pub fs_readwrite : Device → ℕ → Bytes → ℕ → ℕ → Bool → M (Result Bytes)
unfolding readwrite
fs_readwrite dev eb buf size offset write = readwrite dev eb buf size offset write

-- An index that is not negative.
unfoldable pub fs_readdir : Device → List ℕ → ℕ → M (Result Bytes)
fs_readdir dev path index = do
  r ← lookup dev path false
  and_ok r λ dir_block. (do
    s ← get
    let dir = (s.blocks dir_block).content
    if not (entry_type dir == fs_type_dir)
        then pure (err not_a_dir)
        else (if leb (num_entries dir) index then pure (err eof) else (do
          r ← block_read dev (entry_block dir index)
          and_ok r λ eb. (do s ← get; pure (ok (s.blocks eb).content)))))
