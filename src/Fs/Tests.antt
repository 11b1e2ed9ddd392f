-- ===== src/Fs/Tests.antt =====
-- A small file system: a root directory with one file, `/a`, and a device that does not answer.
use microkernel_book.Base.{
  ℕ, ◌+◌, ◌*◌, ◌%◌, ◌^◌, ◌≡◌, ◌⊎◌, refl, arith, true, false, some, List, [], ◌∷◌, ◌++◌, ◌==◌,
  get_elem?, if◌then◌else◌,
}
use microkernel_book.Bytes.{Bytes}
use microkernel_book.Fs.State.{Fs, Block, Device, failed, done, ok, block_size}
use microkernel_book.Fs.Cache.{block_flush_all, block_read, find_cached}
use microkernel_book.Fs.Flush.{block_writes, block_flush_all_lem}
use microkernel_book.Fs.Coherent.{IsCoherent, ReadOutcome, block_read_lem}
use microkernel_book.Fs.Ops.{lookup, find_entry, alloc_block}
use microkernel_book.Fs.Paths.{resolve, lookup-resolve, lookup-parent}
use microkernel_book.Fs.Bitmap.{IsFirst, AllTaken, IsTaken, alloc_block_lem}

abbrev silent : Device
silent log request = failed

abbrev root_content : Bytes
root_content a = if a == 0 then 0xdd else (if a == 260 then 1 else (if a == 280 then 8 else 0))

abbrev file_content : Bytes
file_content a = if a == 0 then 0xff else (if a == 4 then 97 else 0)

abbrev blocks : ℕ → Block
blocks b =
    if b == 0
    then record { index = 1; content = root_content }
    else (if b == 1
        then record { index = 8; content = file_content }
        else record { index = 2; content = λ a. if a == 0 then 7 else 0 })

abbrev files : Fs
files = record {
  blocks = blocks;
  next = 3;
  cached_blocks = 0 ∷ 1 ∷ 2 ∷ [];
  dirty_blocks = 1 ∷ [];
  bitmap_blocks = 2 ∷ [];
  root = 0;
  log = [];
}

-- "/a"
abbrev path_a : List ℕ
path_a = 47 ∷ 97 ∷ []

found_a : lookup silent path_a false files ≡ done (ok 1) files
unfolding lookup find_entry block_read find_cached
found_a = refl

block_flush_all_lem_example :
    block_flush_all silent files
    ≡ done tt (record files { dirty_blocks = []; log = [] ++ block_writes blocks (1 ∷ []) })
block_flush_all_lem_example = block_flush_all_lem silent files

files-IsCoherent : IsCoherent files
files-IsCoherent = record {
  distinct = (refl, (refl, (refl, tt)));
  below = λ b h. ground (arith, h);
  unique = λ b c hb hc e. ground (arith, hb, hc, e);
  dirty = λ b h. ground (arith, h);
}

block_read_lem_example : ReadOutcome silent 8 files
block_read_lem_example = block_read_lem silent 8 files files-IsCoherent

-- The parts of "/a".
abbrev parts_a : List (List ℕ)
parts_a = [] ∷ (97 ∷ []) ∷ []

lookup-resolve_example : lookup silent path_a false files ≡ resolve silent ((97 ∷ []) ∷ []) 0 files
lookup-resolve_example = lookup-resolve silent parts_a files (refl, (refl, tt)) (refl, (refl, refl))

-- The parent of "/a/b/c" is found as "/a".
lookup-parent_example :
    lookup silent (47 ∷ 97 ∷ 47 ∷ 98 ∷ 47 ∷ 99 ∷ []) true files
    ≡ resolve silent ((97 ∷ []) ∷ []) 0 files
lookup-parent_example =
    lookup-parent silent (47 ∷ 97 ∷ 47 ∷ 98 ∷ 47 ∷ 99 ∷ []) (97 ∷ []) ((98 ∷ []) ∷ (99 ∷ []) ∷ [])
      files refl refl refl refl

alloc_block_lem_example :
    ((j b n : ℕ) × (s' : Fs) × IsFirst files (2 ∷ []) j b n
      × (alloc_block files ≡ done ((6 + (j * block_size * 8 + n)) % 2 ^ 16) s')
      × IsTaken b n files s')
    ⊎ ((alloc_block files ≡ done 0 files)
        × ((l c : ℕ)
            → get_elem? (2 ∷ []) l ≡ some c
            → AllTaken (blocks c).content 0 (block_size * 8)))
alloc_block_lem_example = alloc_block_lem files
