-- ===== src/Fs/Coherent.antt =====
-- The block cache of servers/fs/block.c holds each block once.
use microkernel_book.Base.{
  ℕ, ◌+◌, ◌<◌, ◌≡◌, ◌≢◌, ◌⊎◌, inl, inr, refl, arith, true, false, List, [], ◌∷◌, ◌++◌, ◌==◌, ==_iff,
  has, Distinct, Bool-cases, none, some, Option-cases, has-append, append-Distinct, update,
  update_self, update_ne, ap, sym, ◌∙◌, append-nil,
}
use microkernel_book.Bytes.{Bytes}
use microkernel_book.Fs.State.{
  Fs, Block, Request, Device, ok, err, FsError, invalid_arg, done, upto,
}
use microkernel_book.Fs.Sectors.{requests, asked, Holds, FailsAt, read_sectors_lem}
use microkernel_book.Fs.Cache.{read_sectors, find_cached, load_block, block_read, add_block}

-- The cached blocks are allocated, have different numbers, and are the only ones to be written.
pub record IsCoherent (s : Fs) : Type 0 where
  pub distinct : Distinct s.cached_blocks
  pub below : (b : ℕ) → has b s.cached_blocks ≡ true → b < s.next
  pub unique :
      (b c : ℕ)
      → has b s.cached_blocks ≡ true
      → has c s.cached_blocks ≡ true
      → (s.blocks b).index ≡ (s.blocks c).index
      → b ≡ c
  pub dirty : (b : ℕ) → has b s.dirty_blocks ≡ true → has b s.cached_blocks ≡ true

-- The block at `b` is the cached block `index`.
pub record IsCached (s : Fs) (index b : ℕ) : Type 0 where
  pub member : has b s.cached_blocks ≡ true
  pub number : (s.blocks b).index ≡ index

find_cached-some :
    (blocks : ℕ → Block) (index b : ℕ) (bs : List ℕ)
    → find_cached blocks index bs ≡ some b
    → (has b bs ≡ true) × ((blocks b).index ≡ index)
unfolding find_cached
find_cached-some blocks index b [] e = cc
find_cached-some blocks index b (c ∷ bs) e = elim (Bool-cases ((blocks c).index == index)) [
  | inl same ↦
      let here : c ≡ b = ground (arith, e, same) in rw (← here) (ground arith, (==_iff _ _).0 same)
  | inr other ↦
      let r = find_cached-some blocks index b bs (rw other at e) in (ground (arith, r.0), r.1)
]

find_cached-none :
    (blocks : ℕ → Block) (index b : ℕ) (bs : List ℕ)
    → find_cached blocks index bs ≡ none
    → has b bs ≡ true
    → (blocks b).index ≢ index
unfolding find_cached
find_cached-none blocks index b [] e h = cc
find_cached-none blocks index b (c ∷ bs) e h = elim (Bool-cases ((blocks c).index == index)) [
  | inl same ↦ cc (rw same at e)
  | inr other ↦ elim (Bool-cases (b == c)) [
    | inl here ↦ λ q. ground (arith, other, rw ((==_iff b c).0 here) at q)
    | inr there ↦ find_cached-none blocks index b bs (rw other at e) (ground (arith, h, there))
  ]
]

add_block-IsCoherent :
    (s : Fs) (index : ℕ) (content : Bytes) (log : List Request)
    → IsCoherent s
    → ((b : ℕ) → has b s.cached_blocks ≡ true → (s.blocks b).index ≢ index)
    → IsCoherent (add_block index content (record s { log = log }))
add_block-IsCoherent s index content log c absent =
    let grown = λ (b : ℕ). has-append b s.cached_blocks (s.next ∷ []) in
    let new : has s.next s.cached_blocks ≡ false = elim (Bool-cases (has s.next s.cached_blocks)) [
      | inl there ↦ absurd (omega (arith, c.below s.next there))
      | inr away ↦ away
    ] in
    record {
      distinct = append-Distinct s.next s.cached_blocks c.distinct new;
      below = λ b hb. ground (arith, grown b, hb, c.below b);
      unique = λ b d hb hd e. ground (
        arith,
        grown b,
        grown d,
        hb,
        hd,
        e,
        c.unique b d,
        absent b,
        absent d,
        c.below b,
        c.below d,
      );
      dirty = λ b hb. ground (arith, grown b, c.dirty b hb);
    }

-- No cached block has the number.
abbrev pub IsAbsent : Fs → ℕ → Type 0
IsAbsent s index = (b : ℕ) → has b s.cached_blocks ≡ true → (s.blocks b).index ≢ index

-- The block is new at the end of the cache, with the bytes that the device gave for its eight
-- sectors, which it was asked for; nothing else changes.
pub record IsLoaded (dev : Device) (index : ℕ) (s s' : Fs) : Type 0 where
  pub number : (s'.blocks s.next).index ≡ index
  pub sectors : (j : ℕ) → j < 8 → Holds dev index s (s'.blocks s.next).content j
  pub cached : s'.cached_blocks ≡ s.cached_blocks ++ s.next ∷ []
  pub log : s'.log ≡ s.log ++ requests index 8
  pub others : (b : ℕ) → b ≢ s.next → s'.blocks b ≡ s.blocks b
  pub same : (s'.dirty_blocks ≡ s.dirty_blocks) × (s'.bitmap_blocks ≡ s.bitmap_blocks)
  pub coherent : IsCoherent s'

-- What `block_read` leaves.
abbrev pub ReadOutcome : Device → ℕ → Fs → Type 0
ReadOutcome dev index s =
    ((index ≡ 0xffff) × (block_read dev index s ≡ done (err invalid_arg) s))
    ⊎ ((b : ℕ) × IsCached s index b × (block_read dev index s ≡ done (ok b) s))
    ⊎ (IsAbsent s index
        × ((n : ℕ) × (e : FsError) × (block_read dev index s ≡ done (err e) (asked index (n + 1) s))
            × FailsAt dev index s 8 0 n e))
    ⊎ (IsAbsent s index
        × ((s' : Fs) × (block_read dev index s ≡ done (ok s.next) s') × IsLoaded dev index s s'))

add_block-IsLoaded :
    (dev : Device) (index : ℕ) (s : Fs) (content : Bytes)
    → IsCoherent s
    → IsAbsent s index
    → ((j : ℕ) → j < 8 → Holds dev index s content j)
    → IsLoaded dev index s (add_block index content (asked index 8 s))
add_block-IsLoaded dev index s content c absent held =
    let b : Block = record { index = index; content = content } in
    let here : update s.blocks s.next b s.next ≡ b = update_self s.blocks s.next b in
    record {
      number = ap (λ (b : Block). b.index) here;
      sectors = λ j h. rw here (held j h);
      cached = refl;
      log = refl;
      others = λ d ne. update_ne s.blocks s.next d b ne;
      same = (refl, refl);
      coherent = add_block-IsCoherent s index content (s.log ++ requests index 8) c absent;
    }

load_block-ok :
    (dev : Device) (index : ℕ) (s s1 : Fs) (content : Bytes)
    → read_sectors 8 dev index 0 (λ _. 0) s ≡ done (ok content) s1
    → load_block dev index s ≡ done (ok s1.next) (add_block index content s1)
unfolding load_block
load_block-ok dev index s s1 content e = rw e refl

load_block-err :
    (dev : Device) (index : ℕ) (s s1 : Fs) (error : FsError)
    → read_sectors 8 dev index 0 (λ _. 0) s ≡ done (err error) s1
    → load_block dev index s ≡ done (err error) s1
unfolding load_block
load_block-err dev index s s1 error e = rw e refl

sectors_from :
    (dev : Device) (index : ℕ) (s : Fs)
    → read_sectors 8 dev index 0 (λ _. 0) s ≡ read_sectors 8 dev index 0 (λ _. 0) (asked index 0 s)
unfolding upto
sectors_from dev index s =
    ap (λ l. read_sectors 8 dev index 0 (λ _. 0) (record s { log = l })) (sym (append-nil s.log))

-- `block_read` on a cache that holds each block once, with dirty blocks among the cached, does one
-- of these. For the number 0xffff, it gives an error and asks nothing. It gives the cached block
-- with the number and changes nothing. Or no cached block has the number, and it asks for the
-- sectors from eight times the number on: at the first answer that is not a sector of 512 bytes it
-- gives its error, the log of requests being the only change; if all eight are, it gives a new
-- block at the end of the cache with the number and their bytes in order, every other block as
-- before, and the cache again holds each block once.
pub block_read_lem : (dev : Device) (index : ℕ) (s : Fs) → IsCoherent s → ReadOutcome dev index s
unfolding block_read
block_read_lem dev index s c = elim (Bool-cases (index == 0xffff)) [
  | inl bad ↦ inl ((==_iff _ _).0 bad, rw bad refl)
  | inr good ↦ elim (Option-cases (find_cached s.blocks index s.cached_blocks)) [
    | inr (b, e) ↦
        let r = find_cached-some s.blocks index b s.cached_blocks e in
        inr (inl (b, record { member = r.0; number = r.1 }, rw (good, e) refl))
    | inl e ↦
        let absent : IsAbsent s index =
          λ b h. find_cached-none s.blocks index b s.cached_blocks e h in
        let start = sectors_from dev index s in
        elim (read_sectors_lem dev index s 8 0 (λ _. 0)) [
          | inr (n, error, run, fails) ↦ inr (
              inr (
                inl (
                  absent,
                  (
                    n,
                    error,
                    rw (good, e) (load_block-err dev index s _ error (start ∙ run)),
                    fails,
                  ),
                )))
          | inl (content, run, read) ↦ inr (
              inr (
                inr (
                  absent,
                  (
                    add_block index content (asked index 8 s),
                    rw (good, e) (load_block-ok dev index s _ content (start ∙ run)),
                    add_block-IsLoaded dev index s content c absent
                        (λ j h. read.1 j (omega arith) h),
                  ),
                )))
        ]
  ]
]
