-- ===== src/Mbuf/Cut.antt =====
-- servers/tcpip/mbuf.c: the first bytes of a chain, copied or kept.
use microkernel_book.Base.{
  ℕ, suc, ◌+◌, ◌-◌, ◌≤◌, ◌≡◌, refl, sym, ap, ◌∙◌, ◌⊎◌, inl, inr, arith, List, [], ◌∷◌, ◌++◌,
  append-nil, length, length-append, Bool-cases, ◌==◌, leb, ltb,
}
use microkernel_book.Mbuf.Ops.{
  Mbuf, bytes_at, mbuf_alloc, mbuf_len_one, cut_end, mbuf_copy_one, mbuf_peek, mbuf_truncate,
}
use microkernel_book.Mbuf.Contents.{
  bytes_of, contents, InBounds, AllInBounds, bytes_at-congr, mbuf_len_one-length, length-bytes_of,
  take, take-nil, take-append, take-append_le, take-bytes_at,
}

-- An mbuf with its end set for `len` bytes.
abbrev cut : Mbuf → ℕ → Mbuf
cut m len = record m { offset_end = cut_end m len }

module _ (m : Mbuf) (len : ℕ) (b : InBounds m) (h : len ≤ mbuf_len_one m) where
  cut_end_lem : cut_end m len ≡ m.offset + len
  cut_end_lem = let e = mbuf_len_one-length m b in omega (arith, b.0, b.1, h, e)

  cut-InBounds : InBounds (cut m len)
  cut-InBounds =
      let e = mbuf_len_one-length m b in
      let c = cut_end_lem in (omega (arith, c), omega (arith, b.0, b.1, h, e, c))

  cut-bytes : bytes_of (cut m len) ≡ take len (bytes_of m)
  cut-bytes =
      let e = mbuf_len_one-length m b in
      let size : cut_end m len - m.offset ≡ len = (let c = cut_end_lem in omega (arith, c)) in
      ap (bytes_at m.bytes m.offset) size
      ∙ sym (take-bytes_at m.bytes m.offset len (m.offset_end - m.offset) (omega (arith, e, h)))

  take-cut : (rest : List Mbuf) → bytes_of (cut m len) ++ [] ≡ take len (contents (m ∷ rest))
  take-cut rest =
      append-nil _
      ∙ cut-bytes
      ∙ sym (
          take-append_le len (bytes_of m) (contents rest)
            (let l = length-bytes_of m b in omega (arith, l, h)))

-- An mbuf that is kept whole stands in front of the first bytes of the rest.
take-whole :
    (m : Mbuf) (rest : List Mbuf) (len : ℕ)
    → InBounds m
    → mbuf_len_one m ≤ len
    → take len (contents (m ∷ rest)) ≡ bytes_of m ++ take (len - mbuf_len_one m) (contents rest)
take-whole m rest len b h =
    let l = length-bytes_of m b in
    take-append len (bytes_of m) (contents rest) (omega (arith, l, h))
    ∙ ap (λ n. bytes_of m ++ take (len - n) (contents rest)) l

-- The first mbufs of the chain hold `len` bytes.
abbrev pub Boundary : List Mbuf → ℕ → Type 0
Boundary chain len = (n : ℕ) × (length (contents (take n chain)) ≡ len)

Boundary-cons :
    (m : Mbuf) (rest : List Mbuf) (len : ℕ)
    → InBounds m
    → mbuf_len_one m ≤ len
    → (n : ℕ) → length (contents (take n rest)) ≡ len - mbuf_len_one m
    → Boundary (m ∷ rest) len
Boundary-cons m rest len b h n e =
    let total = length-append (bytes_of m) (contents (take n rest)) in
    let l = length-bytes_of m b in (suc n, omega (arith, total, l, e, h))

-- `mbuf_truncate` of a chain in bounds keeps its first `len` bytes, or leaves the chain as it is
-- where its first mbufs hold exactly `len` bytes.
pub mbuf_truncate_lem :
    (chain : List Mbuf) (len : ℕ)
    → AllInBounds chain
    → AllInBounds (mbuf_truncate chain len)
      × ((contents (mbuf_truncate chain len) ≡ take len (contents chain))
          ⊎ ((mbuf_truncate chain len ≡ chain) × Boundary chain len))
unfolding mbuf_truncate
mbuf_truncate_lem [] len b = (tt, inl (sym (take-nil len)))
mbuf_truncate_lem (m ∷ rest) len (b, bs) = elim (Bool-cases (len == 0)) [
  | inl none_left ↦ rw none_left ((b, bs), inr (refl, (0, ground (arith, none_left))))
  | inr some_left ↦ elim (Bool-cases (ltb len (mbuf_len_one m))) [
    | inl inside ↦
        rw (some_left, inside)
          (
            (cut-InBounds m len b (ground (arith, inside)), tt),
            inl (take-cut m len b (ground (arith, inside)) rest),
          )
    | inr whole ↦
        let le : mbuf_len_one m ≤ len = ground (arith, whole) in
        let later = mbuf_truncate_lem rest (len - mbuf_len_one m) bs in
        rw (some_left, whole)
          (
            (b, later.0),
            elim later.1 [
              | inl e ↦ inl (ap (λ xs. bytes_of m ++ xs) e ∙ sym (take-whole m rest len b le))
              | inr (same, (n, e)) ↦ inr (ap (λ xs. m ∷ xs) same, Boundary-cons m rest len b le n e)
            ],
          )
  ]
]

-- Every mbuf of the chain is unread.
abbrev pub AllUnread : List Mbuf → Type 0
AllUnread [] = Unit {0}
AllUnread (m ∷ rest) = (m.offset ≡ 0) × AllUnread rest

copy-bytes : (m : Mbuf) → InBounds m → m.offset ≡ 0 → bytes_of (mbuf_copy_one m) ≡ bytes_of m
unfolding mbuf_copy_one
copy-bytes m b u = bytes_at-congr _ _ m.offset m.offset _ λ i lt.
    let e = mbuf_len_one-length m b in
    let same : 0 + (m.offset + i - 0) ≡ m.offset + i = omega arith in ground (arith, same, e, u)

copy-InBounds : (m : Mbuf) → InBounds m → InBounds (mbuf_copy_one m)
unfolding mbuf_copy_one
copy-InBounds m b = b

-- `mbuf_peek` of a chain in bounds whose mbufs are all unread gives a chain in bounds that holds
-- its first `len` bytes, or all there are.
pub mbuf_peek-take :
    (chain : List Mbuf) (len : ℕ)
    → AllInBounds chain
    → AllUnread chain
    → AllInBounds (mbuf_peek chain len)
      × (contents (mbuf_peek chain len) ≡ take len (contents chain))
unfolding mbuf_peek mbuf_alloc mbuf_copy_one bytes_at
mbuf_peek-take [] len b u = (((omega arith, omega arith), tt), sym (take-nil len))
mbuf_peek-take (m ∷ rest) len (b, bs) (u, us) =
    let copied = ap (λ xs. xs ++ contents rest) (copy-bytes m b u) in
    elim (Bool-cases (leb len (mbuf_len_one m))) [
      | inl inside ↦ rw inside (
        (cut-InBounds (mbuf_copy_one m) len (copy-InBounds m b) (ground (arith, inside)), tt),
        take-cut (mbuf_copy_one m) len (copy-InBounds m b) (ground (arith, inside)) rest
            ∙ ap (take len) copied,
      )
      | inr whole ↦
          let le : mbuf_len_one m ≤ len = ground (arith, whole) in
          let later = mbuf_peek-take rest (len - mbuf_len_one m) bs us in
          rw whole (
            (copy-InBounds m b, later.0),
            (λ i. copy-bytes m b u i ++ later.1 i) ∙ sym (take-whole m rest len b le),
          )
    ]
