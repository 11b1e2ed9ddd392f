-- ===== src/Fs/Dirs.antt =====
-- servers/fs/fs.c: creating and deleting entries, and loading the file system.
use microkernel_book.Base.{
  ℕ, zero, suc, ◌+◌, ◌-◌, Bool, true, false, not, ◌&&◌, ◌||◌, List, [], ◌∷◌, ◌++◌, ◌==◌, ltb, leb,
  if◌then◌else◌, update, has, length,
}
use microkernel_book.Bytes.{Bytes}
use microkernel_book.Fs.State.{
  Device, Result, ok, err, invalid_arg, no_resources, not_empty, already_exists, M, pure, stop,
  ◌>>=◌, ◌>>◌, get, modify, assert, and_ok, set_content, read32, write16, write32, entry_type,
  num_entries, entry_block, fs_magic, fs_header_block, root_dir_block, bitmap_first_block,
  num_bitmap_blocks, blocks_per_entry, fs_type_dir, fs_type_file, fs_name_len,
}
use microkernel_book.Fs.Cache.{block_read, block_mark_as_dirty}
use microkernel_book.Fs.Ops.{slash, lookup, alloc_block, free_block, set_entry_block}

-- The loop that frees the data blocks of a file, from block `i` on.
unfoldable pub free_blocks : ℕ → ℕ → ℕ → M (Unit {0})
free_blocks zero eb i = pure tt
free_blocks (suc rounds) eb i =
    let rest = free_blocks rounds eb (i + 1) in
    (do
      s ← get
      let index = entry_block (s.blocks eb).content i
      if index == 0 then pure tt else (do free_block index; rest))

-- The check of what is to be deleted.
unfoldable pub delete_content : ℕ → M (Result (Unit {0}))
unfolding free_blocks
delete_content eb = do
  s ← get
  let entry = (s.blocks eb).content
  if entry_type entry == fs_type_file
      then (do free_blocks blocks_per_entry eb 0; pure (ok tt))
      else (if entry_type entry == fs_type_dir
          then (if ltb 0 (num_entries entry) then pure (err not_empty) else pure (ok tt))
          else stop)

-- `num_entries` of a directory, a field of 16 bits.
abbrev pub set_num_entries : ℕ → Bytes → Bytes
set_num_entries n = write16 260 n

-- The last entry takes the place of entry `i`.
abbrev pub drop_entry : ℕ → Bytes → Bytes
drop_entry i m =
    let n = num_entries m in
    set_num_entries (n - 1)
      (set_entry_block (n - 1) 0 (set_entry_block i (entry_block m (n - 1)) m))

-- The loop that takes the entry out of its directory, from entry `i` on.
unfoldable pub remove_entry : ℕ → ℕ → ℕ → ℕ → M (Unit {0})
unfolding block_mark_as_dirty
remove_entry zero dir index i = pure tt
remove_entry (suc rounds) dir index i =
    let rest = remove_entry rounds dir index (i + 1) in
    (do
      s ← get
      if entry_block (s.blocks dir).content i == index
          then (do modify (set_content dir (drop_entry i)); block_mark_as_dirty dir)
          else rest)

unfoldable pub fs_delete : Device → List ℕ → M (Result (Unit {0}))
unfolding delete_content remove_entry
fs_delete dev path = do
  r ← lookup dev path true
  and_ok r λ dir. (do
    r ← lookup dev path false
    and_ok r λ eb. (do
      r ← delete_content eb
      and_ok r λ _. (do
        s ← get
        remove_entry (num_entries (s.blocks dir).content) dir (s.blocks eb).index 0
        pure (ok tt))))

-- What is behind the last slash.
abbrev pub basename : List ℕ → List ℕ
basename [] = []
basename (c ∷ cs) =
    let rest = basename cs in if has slash cs then rest else (if c == slash then cs else c ∷ cs)

-- No control character, and none above 0x7e.
abbrev pub is_printable : List ℕ → Bool
is_printable [] = true
is_printable (c ∷ cs) = not (ltb c 0x20 || ltb 0x7e c) && is_printable cs

-- `strcpy_safe` of a name that fits.
abbrev pub put_name : List ℕ → ℕ → Bytes → Bytes
put_name [] a m = update m a 0
put_name (c ∷ cs) a m = put_name cs (a + 1) (update m a c)

-- An entry of 4096 bytes: zeros, the type, the size 0 and the name.
abbrev pub new_entry : ℕ → List ℕ → Bytes → Bytes
new_entry type name m =
    put_name name 4 (write32 260 0 (update (λ a. if ltb a 4096 then 0 else m a) 0 type))

-- The new entry behind the others.
abbrev pub append_entry : ℕ → Bytes → Bytes
append_entry index m = set_num_entries (num_entries m + 1) (set_entry_block (num_entries m) index m)

-- The part of `fs_create` behind the lookups.
unfoldable pub add_entry : Device → ℕ → List ℕ → ℕ → M (Result (Unit {0}))
unfolding block_mark_as_dirty
add_entry dev dir name type = do
  s ← get
  if leb blocks_per_entry (num_entries (s.blocks dir).content) then pure (err no_resources) else (do
    new_index ← alloc_block
    if new_index == 0 then pure (err no_resources) else (do
      r ← block_read dev new_index
      elim r [
        | err e ↦ (do free_block new_index; pure (err e))
        | ok eb ↦ (do
          modify (set_content eb (new_entry type name))
          assert (not (has slash name))
          modify (set_content dir (append_entry new_index))
          block_mark_as_dirty dir
          block_mark_as_dirty eb
          pure (ok tt))
      ]))

-- What `fs_create` does with the answer to whether the path is there.
abbrev pub unless_there : Result ℕ → M (Result (Unit {0})) → M (Result (Unit {0}))
unless_there (ok eb) run = pure (err already_exists)
unless_there (err e) run = run

unfoldable pub fs_create : Device → List ℕ → ℕ → M (Result (Unit {0}))
unfolding add_entry
fs_create dev path type =
    let name = basename path in
    if leb fs_name_len (length name) || length name == 0 || not (is_printable name)
    then pure (err invalid_arg)
    else (do
      r ← lookup dev path false
      unless_there r (do r ← lookup dev path true; and_ok r λ dir. add_entry dev dir name type))

-- A block that must be there.
abbrev pub must_read : Device → ℕ → (ℕ → M (Unit {0})) → M (Unit {0})
must_read dev index f = do r ← block_read dev index; elim r [ ok b ↦ f b | err e ↦ stop ]

-- The loop over the bitmap blocks, from block `i` on.
unfoldable pub load_bitmaps : ℕ → Device → ℕ → M (Unit {0})
load_bitmaps zero dev i = pure tt
load_bitmaps (suc rounds) dev i =
    let rest = load_bitmaps rounds dev (i + 1) in
    must_read dev (bitmap_first_block + i)
      λ b. (do modify (λ s. record s { bitmap_blocks = s.bitmap_blocks ++ b ∷ [] }); rest)

unfoldable pub fs_init : Device → M (Unit {0})
unfolding load_bitmaps
fs_init dev = must_read dev fs_header_block λ header. (do
  s ← get
  assert (read32 (s.blocks header).content 0 == fs_magic)
  must_read dev root_dir_block λ root. (do
    modify (λ s. record s { root = root })
    s ← get
    assert (entry_type (s.blocks root).content == fs_type_dir)
    load_bitmaps num_bitmap_blocks dev 0))
