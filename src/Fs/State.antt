-- ===== src/Fs/State.antt =====
-- The state of servers/fs: block.h, fs.h and the static variables of block.c and fs.c. A `struct
-- block *` is a number, in the order of allocation. The block device is a function from the
-- requests so far and the next one to its answer, and memory does not run out.
use microkernel_book.Base.{
  ℕ, ◌+◌, ◌*◌, ◌/◌, ◌%◌, Bool, true, false, List, [], ◌∷◌, zero, suc, update,
}
use microkernel_book.Bytes.{Bytes}

abbrev pub block_size : ℕ
block_size = 4096

abbrev pub sector_size : ℕ
sector_size = 512

abbrev pub fs_magic : ℕ
fs_magic = 0xf200_5346

abbrev pub fs_header_block : ℕ
fs_header_block = 0

abbrev pub root_dir_block : ℕ
root_dir_block = 1

abbrev pub bitmap_first_block : ℕ
bitmap_first_block = 2

abbrev pub num_bitmap_blocks : ℕ
num_bitmap_blocks = 4

abbrev pub blocks_per_entry : ℕ
blocks_per_entry = 1908

abbrev pub fs_type_dir : ℕ
fs_type_dir = 0xdd

abbrev pub fs_type_file : ℕ
fs_type_file = 0xff

abbrev pub fs_name_len : ℕ
fs_name_len = 256

-- `device` is an error that the driver's answer carries.
pub data FsError : Type 0 where
  invalid_arg unexpected not_found not_a_file not_a_dir : FsError
  eof no_resources not_empty already_exists device : FsError

pub data Result (A : Type 0) : Type 0 where
  ok : A → Result A
  err : FsError → Result A

-- BLK_READ_MSG and BLK_WRITE_MSG, with the sector and, for a write, the bytes of the sector.
pub data Request : Type 0 where
  read_sector : ℕ → Request
  write_sector : ℕ → List ℕ → Request

-- What `ipc_call` returns: an error, BLK_READ_REPLY_MSG with a length and its bytes, or another
-- message.
pub data Reply : Type 0 where
  failed : Reply
  read_reply : (len : ℕ) → Bytes → Reply
  other_reply : Reply

abbrev pub Device : Type 0
Device = List Request → Request → Reply

-- `struct block`. An offset from 4096 on is the memory behind the block.
pub record Block : Type 0 where
  pub index : ℕ
  pub content : Bytes

pub record Fs : Type 0 where
  pub blocks : ℕ → Block
  pub next : ℕ
  pub cached_blocks : List ℕ
  pub dirty_blocks : List ℕ
  pub bitmap_blocks : List ℕ
  pub root : ℕ
  pub log : List Request

-- `stopped` is a failed assertion, a panic or a read through a wild pointer.
pub data Outcome (A : Type 0) : Type 0 where
  done : A → Fs → Outcome A
  stopped : Outcome A

abbrev pub M : Type 0 → Type 0
M A = Fs → Outcome A

module _ {A B : Type 0} where
  abbrev pub and_then : Outcome A → (A → M B) → Outcome B
  and_then (done a s) f = f a s
  and_then stopped f = stopped

  infixl 5 ◌>>=◌ ◌>>◌
  abbrev pub ◌>>=◌ : M A → (A → M B) → M B
  ◌>>=◌ m f s = and_then (m s) f

  abbrev pub ◌>>◌ : M A → M B → M B
  ◌>>◌ m n s = and_then (m s) λ _. n

abbrev pub pure : {A : Type 0} → A → M A
pure a s = done a s

abbrev pub stop : {A : Type 0} → M A
stop s = stopped

abbrev pub get : M Fs
get s = done s s

abbrev pub modify : (Fs → Fs) → M (Unit {0})
modify f s = done tt (f s)

abbrev pub assert : Bool → M (Unit {0})
assert true s = done tt s
assert false s = stopped

abbrev pub and_ok : {A B : Type 0} → Result A → (A → M (Result B)) → M (Result B)
and_ok (ok a) f = f a
and_ok (err e) f = pure (err e)

-- A write to the content of a block.
abbrev pub set_content : ℕ → (Bytes → Bytes) → Fs → Fs
set_content b f s = record s {
  blocks = update s.blocks b (record (s.blocks b) { content = f (s.blocks b).content });
}

-- Fields of two and four bytes, the low byte first.
abbrev pub read16 : Bytes → ℕ → ℕ
read16 m a = m a + m (a + 1) * 256

abbrev pub read32 : Bytes → ℕ → ℕ
read32 m a = m a + m (a + 1) * 256 + m (a + 2) * 65536 + m (a + 3) * 16777216

abbrev pub write16 : ℕ → ℕ → Bytes → Bytes
write16 a v m = update (update m a (v % 256)) (a + 1) (v / 256 % 256)

abbrev pub write32 : ℕ → ℕ → Bytes → Bytes
write32 a v m =
    update
      (update (update (update m a (v % 256)) (a + 1) (v / 256 % 256)) (a + 2) (v / 65536 % 256))
      (a + 3) (v / 16777216 % 256)

-- `struct hinafs_entry` in a block: type, name, size or number of entries, and block numbers.
abbrev pub entry_type : Bytes → ℕ
entry_type m = m 0

abbrev pub entry_size : Bytes → ℕ
entry_size m = read32 m 260

abbrev pub num_entries : Bytes → ℕ
num_entries m = read16 m 260

abbrev pub entry_block : Bytes → ℕ → ℕ
entry_block m i = read16 m (280 + 2 * i)

-- The `count` numbers from `from` on.
unfoldable pub upto : (from count : ℕ) → List ℕ
upto from zero = []
upto from (suc count) = from ∷ upto (from + 1) count
