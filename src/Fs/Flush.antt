-- ===== src/Fs/Flush.antt =====
-- Writing back: `block_flush_all` of servers/fs/block.c.
use microkernel_book.Base.{
  ℕ, zero, suc, ◌+◌, ◌*◌, ◌≡◌, refl, ap, ◌∙◌, List, [], ◌∷◌, ◌++◌, append_assoc, append-nil, map,
  arith,
}
use microkernel_book.Bytes.{Bytes}
use microkernel_book.Fs.State.{Fs, Block, Request, write_sector, Device, done, sector_size, upto}
use microkernel_book.Fs.Cache.{
  ipc_call, bytes_from, block_to_sector, write_sectors, block_write, flush_blocks, block_flush_all,
}

-- The 512 bytes of sector `i` of a block.
abbrev pub sector_bytes : Bytes → ℕ → List ℕ
sector_bytes content i = map (λ j. content (i * 512 + j)) (upto 0 512)

-- The requests that write `rounds` sectors of a block, from sector `i` on: a block is eight sectors.
abbrev pub sector_writes : ℕ → Block → ℕ → List Request
sector_writes rounds b i =
    map (λ j. write_sector (b.index * 8 + j) (sector_bytes b.content j)) (upto i rounds)

-- The requests that write these blocks, one block behind the other.
abbrev pub block_writes : (ℕ → Block) → List ℕ → List Request
block_writes blocks [] = []
block_writes blocks (b ∷ bs) = sector_writes 8 (blocks b) 0 ++ block_writes blocks bs

pub block_to_sector_lem : (index : ℕ) → block_to_sector index ≡ index * 8
unfolding block_to_sector
block_to_sector_lem index = omega arith

bytes_from-map :
    (len : ℕ) (m : Bytes) (a i : ℕ) → bytes_from m (a + i) len ≡ map (λ j. m (a + j)) (upto i len)
unfolding bytes_from upto
bytes_from-map zero m a i = refl
bytes_from-map (suc len) m a i =
    ap (λ t. m (a + i) ∷ t)
      (ap (λ b. bytes_from m b len) (omega arith) ∙ bytes_from-map len m a (i + 1))

bytes_from-sector :
    (m : Bytes) (i : ℕ) → bytes_from m (i * sector_size) sector_size ≡ sector_bytes m i
bytes_from-sector m i =
    ap (λ a. bytes_from m a 512) (omega arith) ∙ bytes_from-map 512 m (i * 512) 0

write_sectors_lem :
    (rounds : ℕ) (dev : Device) (b : Block) (i : ℕ) (s : Fs)
    → write_sectors rounds dev b i s
      ≡ done tt (record s { log = s.log ++ sector_writes rounds b i })
unfolding write_sectors ipc_call upto
write_sectors_lem zero dev b i s = rw (append-nil s.log) refl
write_sectors_lem (suc rounds) dev b i s =
    rw (block_to_sector_lem b.index, bytes_from-sector b.content i)
      (write_sectors_lem rounds dev b (i + 1) _
        ∙ ap (λ l. done tt (record s { log = l })) (append_assoc s.log _ _))

block_write_lem :
    (dev : Device) (b : ℕ) (s : Fs)
    → block_write dev b s ≡ done tt (record s { log = s.log ++ sector_writes 8 (s.blocks b) 0 })
unfolding block_write
block_write_lem dev b s = write_sectors_lem 8 dev (s.blocks b) 0 s

flush_blocks_lem :
    (bs : List ℕ) (dev : Device) (s : Fs)
    → flush_blocks dev bs s
      ≡ done tt (record s { dirty_blocks = []; log = s.log ++ block_writes s.blocks bs })
unfolding flush_blocks
flush_blocks_lem [] dev s = rw (append-nil s.log) refl
flush_blocks_lem (b ∷ bs) dev s = rw (block_write_lem dev b s) (
    flush_blocks_lem bs dev _
    ∙ ap (λ l. done tt (record s { dirty_blocks = []; log = l }))
        (append_assoc s.log (sector_writes 8 (s.blocks b) 0) (block_writes s.blocks bs)))

-- `block_flush_all` empties the list of dirty blocks and asks the device to write them, in their
-- order, each by the eight sectors from eight times its number on, with their 512 bytes each; it
-- does so whatever the device answers, and changes nothing else.
pub block_flush_all_lem :
    (dev : Device) (s : Fs)
    → block_flush_all dev s
      ≡ done tt
          (record s { dirty_blocks = []; log = s.log ++ block_writes s.blocks s.dirty_blocks })
unfolding block_flush_all
block_flush_all_lem dev s = flush_blocks_lem s.dirty_blocks dev s
