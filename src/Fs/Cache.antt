-- ===== src/Fs/Cache.antt =====
-- servers/fs/block.c: the block cache.
use microkernel_book.Base.{
  ℕ, zero, suc, ◌+◌, ◌-◌, ◌*◌, ◌/◌, Option, none, some, List, [], ◌∷◌, ◌++◌, ◌==◌, ltb, leb,
  if◌then◌else◌, update, has,
}
use microkernel_book.Bytes.{Bytes}
use microkernel_book.Fs.State.{
  Fs, Block, Request, read_sector, write_sector, Reply, failed, read_reply, other_reply, Device,
  Result, ok, err, invalid_arg, unexpected, device, M, done, pure, ◌>>=◌, ◌>>◌, get, modify, and_ok,
  block_size, sector_size,
}

unfoldable pub block_to_sector : ℕ → ℕ
block_to_sector index = index * block_size / sector_size

-- `ipc_call`: the request joins the log.
unfoldable pub ipc_call : Device → Request → M Reply
ipc_call dev q s = done (dev s.log q) (record s { log = s.log ++ q ∷ [] })

unfoldable pub bytes_from : Bytes → ℕ → ℕ → List ℕ
bytes_from m a zero = []
bytes_from m a (suc len) = m a ∷ bytes_from m (a + 1) len

-- The loop of `block_write` from sector `i` of the block on; errors are only printed.
unfoldable pub write_sectors : ℕ → Device → Block → ℕ → M (Unit {0})
unfolding ipc_call
write_sectors zero dev b i = pure tt
write_sectors (suc rounds) dev b i =
    let rest = write_sectors rounds dev b (i + 1) in
    ipc_call dev (
      write_sector (block_to_sector b.index + i)
        (bytes_from b.content (i * sector_size) sector_size))
    >>= λ _. rest

unfoldable pub block_write : Device → ℕ → M (Unit {0})
unfolding write_sectors
block_write dev b = do s ← get; write_sectors 8 dev (s.blocks b) 0

-- The cached block with this number.
unfoldable pub find_cached : (ℕ → Block) → ℕ → List ℕ → Option ℕ
find_cached blocks index [] = none
find_cached blocks index (b ∷ bs) =
    if (blocks b).index == index then some b else find_cached blocks index bs

-- The bytes of a reply at their place in a block.
abbrev pub placed : Bytes → ℕ → Bytes → Bytes
placed content i bytes a =
    if leb (i * sector_size) a
    then (if ltb a (i * sector_size + sector_size) then bytes (a - i * sector_size) else content a)
    else content a

-- The check of one reply.
abbrev pub check_reply : Reply → Result Bytes
check_reply failed = err device
check_reply other_reply = err unexpected
check_reply (read_reply len bytes) = if len == sector_size then ok bytes else err unexpected

-- The loop of `block_read` from sector `i` on, with what is read so far.
unfoldable pub read_sectors : ℕ → Device → ℕ → ℕ → Bytes → M (Result Bytes)
unfolding ipc_call block_to_sector
read_sectors zero dev index i content = pure (ok content)
read_sectors (suc rounds) dev index i content =
    let rest = λ (bytes : Bytes). read_sectors rounds dev index (i + 1) (placed content i bytes) in
    ipc_call dev (read_sector (block_to_sector index + i)) >>= λ r. and_ok (check_reply r) rest

-- The new block joins the cache.
abbrev pub add_block : ℕ → Bytes → Fs → Fs
add_block index content s = record s {
  blocks = update s.blocks s.next (record { index = index; content = content });
  next = s.next + 1;
  cached_blocks = s.cached_blocks ++ s.next ∷ [];
}

-- What `malloc` gives is filled with zeros.
unfoldable pub load_block : Device → ℕ → M (Result ℕ)
load_block dev index = do
  r ← read_sectors 8 dev index 0 (λ _. 0)
  and_ok r λ content. (do s ← get; modify (add_block index content); pure (ok s.next))

-- The cached block, or else what `load` does.
abbrev pub cached_or : Option ℕ → M (Result ℕ) → M (Result ℕ)
cached_or (some b) load = pure (ok b)
cached_or none load = load

unfoldable pub block_read : Device → ℕ → M (Result ℕ)
block_read dev index =
    if index == 0xffff
    then pure (err invalid_arg)
    else (do s ← get; cached_or (find_cached s.blocks index s.cached_blocks) (load_block dev index))

unfoldable pub block_mark_as_dirty : ℕ → M (Unit {0})
block_mark_as_dirty b =
    modify
      λ s. if has b s.dirty_blocks then s else record s { dirty_blocks = s.dirty_blocks ++ b ∷ [] }

-- The loop of `block_flush_all`, which takes each block off the list.
unfoldable pub flush_blocks : Device → List ℕ → M (Unit {0})
flush_blocks dev [] = modify λ s. record s { dirty_blocks = [] }
flush_blocks dev (b ∷ bs) =
    let rest = flush_blocks dev bs in
    block_write dev b >>= λ _. modify (λ s. record s { dirty_blocks = bs }) >>= λ _. rest

unfoldable pub block_flush_all : Device → M (Unit {0})
unfolding flush_blocks
block_flush_all dev = do s ← get; flush_blocks dev s.dirty_blocks
