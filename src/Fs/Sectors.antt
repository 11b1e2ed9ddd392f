-- ===== src/Fs/Sectors.antt =====
-- `block_read` of servers/fs/block.c asks the device for the eight sectors of a block.
use microkernel_book.Base.{
  ℕ, zero, suc, ◌+◌, ◌-◌, ◌*◌, ◌≤◌, ◌<◌, ◌≡◌, ◌≢◌, ◌⊎◌, inl, inr, refl, sym, ap, ◌∙◌, arith, List,
  [], ◌∷◌, ◌++◌, ◌==◌, ==_iff, map, append_assoc, Bool-cases,
}
use microkernel_book.Bytes.{Bytes}
use microkernel_book.Fs.State.{
  Fs, Request, read_sector, Reply, failed, read_reply, other_reply, Device, Result, ok, err,
  FsError, device, unexpected, done, upto,
}
use microkernel_book.Fs.Cache.{ipc_call, read_sectors, check_reply, placed}
use microkernel_book.Fs.Flush.{block_to_sector_lem}

-- The requests for the first `count` sectors of a block: it starts at sector `index * 8`.
abbrev pub requests : ℕ → ℕ → List Request
requests index count = map (λ j. read_sector (index * 8 + j)) (upto 0 count)

-- The state behind these requests.
abbrev pub asked : ℕ → ℕ → Fs → Fs
asked index count s = record s { log = s.log ++ requests index count }

-- The device's answer for sector `j` of the block, asked for behind the ones before it.
abbrev pub answer : Device → ℕ → Fs → ℕ → Reply
answer dev index s j = dev (asked index j s).log (read_sector (index * 8 + j))

-- It is a sector of bytes.
abbrev pub Good : Device → ℕ → Fs → ℕ → Bytes → Type 0
Good dev index s j bytes = answer dev index s j ≡ read_reply 512 bytes

-- It is not, for which the call gives this error.
abbrev pub Bad : Device → ℕ → Fs → ℕ → FsError → Type 0
Bad dev index s j e =
    ((answer dev index s j ≡ failed) × (e ≡ device))
    ⊎ ((answer dev index s j ≡ other_reply) × (e ≡ unexpected))
    ⊎ ((len : ℕ) × (bytes : Bytes) × (answer dev index s j ≡ read_reply len bytes)
        × (len ≢ 512)
        × (e ≡ unexpected))

-- The answer for sector `j` is the bytes of the block there.
abbrev pub Holds : Device → ℕ → Fs → Bytes → ℕ → Type 0
Holds dev index s content j =
    (bytes : Bytes) × Good dev index s j bytes
    × ((x : ℕ) → x < 512 → content (j * 512 + x) ≡ bytes x)

map-suc :
    {A : Type 0} (f : ℕ → A) (n i : ℕ) → map f (upto i (suc n)) ≡ map f (upto i n) ++ f (i + n) ∷ []
unfolding upto
map-suc f zero i = ap (λ k. f k ∷ []) (omega arith)
map-suc f (suc n) i =
    ap (λ t. f i ∷ t)
      (map-suc f n (i + 1) ∙ ap (λ k. map f (upto (i + 1) n) ++ f k ∷ []) (omega arith))

asked-next :
    (index i : ℕ) (s : Fs)
    → asked index (i + 1) s
      ≡ record s { log = (asked index i s).log ++ read_sector (index * 8 + i) ∷ [] }
asked-next index i s =
    ap (λ l. record s { log = l })
      (ap (λ k. s.log ++ requests index k) (omega arith)
        ∙ ap (λ t. s.log ++ t) (map-suc (λ j. read_sector (index * 8 + j)) i 0)
        ∙ ap (λ k. s.log ++ (requests index i ++ read_sector (index * 8 + k) ∷ [])) (omega arith)
        ∙ sym (append_assoc s.log (requests index i) (read_sector (index * 8 + i) ∷ [])))

check_reply-cases :
    (r : Reply)
    → ((bytes : Bytes) × (r ≡ read_reply 512 bytes) × (check_reply r ≡ ok bytes))
      ⊎ ((e : FsError) × (check_reply r ≡ err e)
          × (((r ≡ failed) × (e ≡ device))
              ⊎ ((r ≡ other_reply) × (e ≡ unexpected))
              ⊎ ((len : ℕ) × (bytes : Bytes) × (r ≡ read_reply len bytes)
                  × (len ≢ 512)
                  × (e ≡ unexpected))))
check_reply-cases failed = inr (device, refl, inl (refl, refl))
check_reply-cases other_reply = inr (unexpected, refl, inr (inl (refl, refl)))
check_reply-cases (read_reply len bytes) = elim (Bool-cases (len == 512)) [
  | inl full ↦
      let e : len ≡ 512 = (==_iff len 512).0 full in
      inl (bytes, ap (λ n. read_reply n bytes) e, rw full refl)
  | inr other ↦ inr (
    unexpected,
    rw other refl,
    inr (inr (len, bytes, refl, (λ e. ground (arith, other, e)), refl)),
  )
]

placed_below :
    (content bytes : Bytes) (i a : ℕ) → a < i * 512 → placed content i bytes a ≡ content a
placed_below content bytes i a h = ground arith

placed_inside :
    (content bytes : Bytes) (i x : ℕ) → x < 512 → placed content i bytes (i * 512 + x) ≡ bytes x
placed_inside content bytes i x h =
    let e : bytes (i * 512 + x - i * 512) ≡ bytes x = ap bytes (omega arith) in ground (arith, e)

module _ (dev : Device) (index : ℕ) (s : Fs) where
  -- What the loop gives from sector `i` on.
  abbrev pub AllRead : ℕ → ℕ → Bytes → Bytes → Type 0
  AllRead rounds i content content' =
      ((a : ℕ) → a < i * 512 → content' a ≡ content a)
      × ((j : ℕ) → i ≤ j → j < i + rounds → Holds dev index s content' j)

  abbrev pub FailsAt : ℕ → ℕ → ℕ → FsError → Type 0
  FailsAt rounds i n e =
      (i ≤ n)
      × (n < i + rounds)
      × ((j : ℕ) → i ≤ j → j < n → (bytes : Bytes) × Good dev index s j bytes)
      × Bad dev index s n e

  pub read_sectors_lem :
      (rounds i : ℕ) (content : Bytes)
      → ((content' : Bytes) × (read_sectors rounds dev index i content (asked index i s)
            ≡ done (ok content') (asked index (i + rounds) s))
          × AllRead rounds i content content')
        ⊎ ((n : ℕ) × (e : FsError) × (read_sectors rounds dev index i content (asked index i s)
              ≡ done (err e) (asked index (n + 1) s))
            × FailsAt rounds i n e)
  unfolding read_sectors ipc_call
  read_sectors_lem zero i content = inl (
    content,
    ap (λ k. done (ok content) (asked index k s)) (omega arith),
    (λ a h. refl, λ j from to. absurd (omega arith)),
  )
  read_sectors_lem (suc rounds) i content = elim (check_reply-cases (answer dev index s i)) [
    | inr (e, refused, bad) ↦ inr (
      i,
      e,
      rw (block_to_sector_lem index, refused)
          (ap (λ t. done (err e) t) (sym (asked-next index i s))),
      (omega arith, omega arith, (λ j from to. absurd (omega arith)), bad),
    )
    | inl (bytes, got, good) ↦
        let step =
          λ (r : Result Bytes) (t : Fs)
              (run : read_sectors rounds dev index (i + 1) (placed content i bytes)
                  (asked index (i + 1) s)
                ≡ done r t).
            let e : read_sectors (suc rounds) dev index i content (asked index i s) ≡ done r t =
              rw (block_to_sector_lem index, good)
                (ap (read_sectors rounds dev index (i + 1) (placed content i bytes))
                    (sym (asked-next index i s))
                  ∙ run) in
            e in
        elim (read_sectors_lem rounds (i + 1) (placed content i bytes)) [
          | inl (content', run, (below, held)) ↦ inl (
            content',
            step _ _ run ∙ ap (λ k. done (ok content') (asked index k s)) (omega arith),
            (
              (λ a h. below a (omega (arith, h)) ∙ placed_below content bytes i a h),
              λ j from to. elim (Bool-cases (j == i)) [
                | inl here ↦
                    let e : i ≡ j = ground (arith, here) in
                    rw (← e) (
                      bytes,
                      got,
                      λ x h.
                          below (i * 512 + x) (omega (arith, h))
                          ∙ placed_inside content bytes i x h,
                    )
                | inr other ↦ held j (ground (arith, other, from)) (omega (arith, to))
              ],
            ),
          )
          | inr (n, e, run, (from, to, before, bad)) ↦ inr (
            n,
            e,
            step _ _ run,
            (
              omega (arith, from),
              omega (arith, to),
              (λ j low high. elim (Bool-cases (j == i)) [
                | inl here ↦ let q : i ≡ j = ground (arith, here) in rw (← q) (bytes, got)
                | inr other ↦ before j (ground (arith, other, low)) high
              ]),
              bad,
            ),
          )
        ]
  ]
