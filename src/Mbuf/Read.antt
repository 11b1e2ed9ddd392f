-- ===== src/Mbuf/Read.antt =====
-- servers/tcpip/mbuf.c: reading from a chain, and discarding its first bytes.
use microkernel_book.Base.{
  ℕ, zero, suc, ◌+◌, ◌-◌, ◌*◌, ◌%◌, ◌^◌, ◌≤◌, ◌<◌, min, ◌≡◌, refl, sym, ap, ◌∙◌, ◌⊎◌, inl, inr,
  arith, List, [], ◌∷◌, ◌++◌, append_assoc, length, length-append, Option, none, some, Bool-cases,
  ◌==◌,
}
use microkernel_book.Mbuf.Ops.{
  Mbuf, bytes_at, mbuf_len_one, advance, next_mbuf, takes, round, Reading, mbuf_read, read_round,
  with_bytes, Discarding, mbuf_discard, discard_round, with_count,
}
use microkernel_book.Mbuf.Contents.{
  bytes_of, contents, InBounds, AllInBounds, bytes_at-add, length-bytes_at, mbuf_len_one-length,
  take, take-nil, drop, take-append, drop-append,
}

-- The loop ended with the first `want` of the bytes read, and a chain that holds the others.
abbrev pub ReadOf : ℕ → List ℕ → Option Reading → Type 0
ReadOf want bytes none = ⊥
ReadOf want bytes (some r) =
    (r.copied ≡ take want bytes) × (contents r.chain ≡ drop want bytes) × AllInBounds r.chain

drop-nil : (n : ℕ) → drop {A = ℕ} n [] ≡ []
drop-nil zero = refl
drop-nil (suc n) = refl

module _ (m : Mbuf) (n : ℕ) (b : InBounds m) (h : n ≤ mbuf_len_one m) where
  advance-InBounds : InBounds (advance m n)
  advance-InBounds =
      let e = mbuf_len_one-length m b in
      (omega (arith, b.0, b.1, h, e), omega (arith, b.0, b.1, h, e))

  advance-bytes : bytes_of m ≡ bytes_at m.bytes m.offset n ++ bytes_of (advance m n)
  advance-bytes =
      let e = mbuf_len_one-length m b in
      let at : m.offset + n ≡ (m.offset + n) % 2 ^ 16 = omega (arith, b.0, b.1, h, e) in
      let whole : m.offset_end - m.offset ≡ n + (m.offset_end - (m.offset + n) % 2 ^ 16) =
        omega (arith, b.0, b.1, h, e) in
      ap (bytes_at m.bytes m.offset) whole
      ∙ bytes_at-add m.bytes m.offset n _
      ∙ ap
          (λ a.
            bytes_at m.bytes m.offset n
            ++ bytes_at m.bytes a (m.offset_end - (m.offset + n) % 2 ^ 16))
          at

  -- The chain behind the bytes taken.
  contents-advance :
      (rest : List Mbuf)
      → contents (m ∷ rest) ≡ bytes_at m.bytes m.offset n ++ contents (advance m n ∷ rest)
  contents-advance rest =
      ap (λ xs. xs ++ contents rest) advance-bytes
      ∙ append_assoc _ (bytes_of (advance m n)) (contents rest)

  mbuf_len_one-advance : mbuf_len_one (advance m n) ≡ mbuf_len_one m - n
  mbuf_len_one-advance =
      mbuf_len_one-length (advance m n) advance-InBounds
      ∙ (let e = mbuf_len_one-length m b in omega (arith, b.0, b.1, h, e))

empty-bytes : (m : Mbuf) → InBounds m → mbuf_len_one m ≡ 0 → bytes_of m ≡ []
unfolding bytes_at
empty-bytes m b e =
    ap (bytes_at m.bytes m.offset)
      (let z : m.offset_end - m.offset ≡ 0 = sym (mbuf_len_one-length m b) ∙ e in z)

-- The bytes taken stand in front of what the later rounds read.
with_bytes-ReadOf :
    (bs later : List ℕ) (want : ℕ) (o : Option Reading)
    → length bs ≤ want
    → ReadOf (want - length bs) later o
    → ReadOf want (bs ++ later) (with_bytes bs o)
with_bytes-ReadOf bs later want none le h = h
with_bytes-ReadOf bs later want (some r) le (c, l, b) = (
  ap (λ xs. bs ++ xs) c ∙ sym (take-append want bs later le),
  l ∙ sym (drop-append want bs later le),
  b,
)

-- Nothing is left to read, or nothing is wanted.
stopped-ReadOf :
    (want : ℕ) (m : Mbuf) (rest : List Mbuf)
    → AllInBounds (m ∷ rest)
    → (want ≡ 0) ⊎ (contents (m ∷ rest) ≡ [])
    → ReadOf want (contents (m ∷ rest)) (some (record { copied = []; chain = m ∷ rest }))
stopped-ReadOf want m rest b (inl e) = rw e (refl, refl, b)
stopped-ReadOf want m rest b (inr e) = rw e (sym (take-nil want), sym (drop-nil want), b)

takes-ReadOf :
    (n want : ℕ) (m : Mbuf) (rest : List Mbuf) (more : Mbuf → List Mbuf → ℕ → Option Reading)
    → AllInBounds (m ∷ rest)
    → n ≤ want
    → n ≤ mbuf_len_one m
    → (n ≡ 0 → (want ≡ 0) ⊎ (contents (m ∷ rest) ≡ []))
    → (0 < n
        → ReadOf (want - n) (contents (advance m n ∷ rest)) (more (advance m n) rest (want - n)))
    → ReadOf want (contents (m ∷ rest)) (read_round (takes n) m rest want more)
takes-ReadOf zero want m rest more b lw ll stop go = stopped-ReadOf want m rest b (stop refl)
takes-ReadOf (suc n) want m rest more b lw ll stop go =
    let size = length-bytes_at m.bytes m.offset (suc n) in
    rw (contents-advance m (suc n) b.0 ll rest) (
      with_bytes-ReadOf (bytes_at m.bytes m.offset (suc n)) (contents (advance m (suc n) ∷ rest))
        want _ (rw size lw) (rw size (go (omega arith))))

-- Whether a round stops, and what is left then.
stops :
    (m : Mbuf) (rest : List Mbuf) (want : ℕ)
    → InBounds m
    → (rest ≡ []) ⊎ (0 < mbuf_len_one m)
    → min want (mbuf_len_one m) ≡ 0
    → (want ≡ 0) ⊎ (contents (m ∷ rest) ≡ [])
stops m rest want b (inl e) z = elim (Bool-cases (want == 0)) [
  | inl w ↦ inl (ground (arith, w))
  | inr w ↦
      inr (
        let empty : mbuf_len_one m ≡ 0 = ground (arith, w, z) in rw (e, empty-bytes m b empty) refl)
]
stops m rest want b (inr pos) z = inl (omega arith)

round_lem :
    (m : Mbuf) (rest : List Mbuf) (want : ℕ)
    → ((next : Mbuf) × (rest' : List Mbuf) × (rest ≡ next ∷ rest')
        × (mbuf_len_one m ≡ 0)
        × (round m rest want ≡ next_mbuf next rest'))
      ⊎ (((rest ≡ []) ⊎ (0 < mbuf_len_one m))
          × (round m rest want ≡ takes (min want (mbuf_len_one m))))
unfolding round
round_lem m [] want = inr (inl refl, refl)
round_lem m (next ∷ rest') want = elim (Bool-cases (mbuf_len_one m == 0)) [
  | inl e ↦ inl (next, rest', refl, ground (arith, e), rw e refl)
  | inr e ↦ inr (inr (ground (arith, e)), rw e refl)
]

-- The rounds that the loop takes, less one.
abbrev rounds_for : Mbuf → List Mbuf → ℕ → ℕ
rounds_for m rest want = min 1 (min want (mbuf_len_one m)) + 2 * length rest

contents-skip :
    (m next : Mbuf) (rest rest' : List Mbuf)
    → InBounds m
    → rest ≡ next ∷ rest'
    → mbuf_len_one m ≡ 0
    → contents (m ∷ rest) ≡ contents (next ∷ rest')
contents-skip m next rest rest' b e z =
    ap (λ xs. xs ++ contents rest) (empty-bytes m b z) ∙ ap contents e

AllInBounds-congr : {xs ys : List Mbuf} → xs ≡ ys → AllInBounds xs → AllInBounds ys
AllInBounds-congr {xs} {ys} e b = rw (← e) b

rounds-advance :
    (m : Mbuf) (rest : List Mbuf) (want rounds : ℕ)
    → InBounds m
    → 0 < min want (mbuf_len_one m)
    → rounds_for m rest want < suc rounds
    → rounds_for (advance m (min want (mbuf_len_one m))) rest (want - min want (mbuf_len_one m))
      < rounds
rounds-advance m rest want rounds b pos h =
    let left = mbuf_len_one-advance m (min want (mbuf_len_one m)) b (omega arith) in
    omega (arith, left, h, pos)

rounds-skip :
    (m next : Mbuf) (rest rest' : List Mbuf) (want rounds : ℕ)
    → rest ≡ next ∷ rest'
    → rounds_for m rest want < suc rounds
    → rounds_for next rest' want < rounds
rounds-skip m next rest rest' want rounds e h =
    let size : length rest ≡ suc (length rest') = ap length e in omega (arith, size, h)

mbuf_read_loop :
    (rounds : ℕ) (m : Mbuf) (rest : List Mbuf) (want : ℕ)
    → rounds_for m rest want < rounds
    → AllInBounds (m ∷ rest)
    → ReadOf want (contents (m ∷ rest)) (mbuf_read rounds m rest want)
unfolding mbuf_read
mbuf_read_loop zero m rest want h b = absurd (omega arith)
mbuf_read_loop (suc rounds) m rest want h b = elim (round_lem m rest want) [
  | inl (next, rest', e, z, r) ↦
      rw (r, contents-skip m next rest rest' b.0 e z)
        (mbuf_read_loop rounds next rest' want (rounds-skip m next rest rest' want rounds e h)
          (AllInBounds-congr e b.1))
  | inr (ends, r) ↦ rw r (
      takes-ReadOf (min want (mbuf_len_one m)) want m rest _ b (omega arith) (omega arith)
        (stops m rest want b.0 ends)
        λ pos.
          mbuf_read_loop rounds (advance m _) rest _ (rounds-advance m rest want rounds b.0 pos h)
            (advance-InBounds m _ b.0 (omega arith), b.1))
]

-- `mbuf_read` of a chain in bounds ends, with two rounds for each mbuf: it reads the first `want`
-- bytes of the chain, or all there are, and leaves a chain in bounds that holds the others.
pub mbuf_read-ReadOf :
    (rounds : ℕ) (m : Mbuf) (rest : List Mbuf) (want : ℕ)
    → 2 * length rest + 1 < rounds
    → AllInBounds (m ∷ rest)
    → ReadOf want (contents (m ∷ rest)) (mbuf_read rounds m rest want)
mbuf_read-ReadOf rounds m rest want h b = mbuf_read_loop rounds m rest want (omega arith) b

-- The loop ended with as many bytes gone as were asked for and there were.
abbrev pub DiscardOf : ℕ → List ℕ → Option Discarding → Type 0
DiscardOf n bytes none = ⊥
DiscardOf n bytes (some r) =
    (r.count ≡ min n (length bytes)) × (contents r.chain ≡ drop n bytes) × AllInBounds r.chain

with_count-DiscardOf :
    (bs later : List ℕ) (n want : ℕ) (o : Option Discarding)
    → length bs ≡ n
    → n ≤ want
    → DiscardOf (want - n) later o
    → DiscardOf want (bs ++ later) (with_count n o)
with_count-DiscardOf bs later n want none e le h = h
with_count-DiscardOf bs later n want (some r) e le (c, l, b) = (
  (let total = length-append bs later in omega (arith, total, c, le, e)),
  l
      ∙ ap (λ k. drop (want - k) later) (sym e)
      ∙ sym (drop-append want bs later (omega (arith, e, le))),
  b,
)

takes-DiscardOf :
    (n want : ℕ) (m : Mbuf) (rest : List Mbuf) (more : Mbuf → List Mbuf → ℕ → Option Discarding)
    → AllInBounds (m ∷ rest)
    → n ≤ want
    → n ≤ mbuf_len_one m
    → (n ≡ 0 → (want ≡ 0) ⊎ (contents (m ∷ rest) ≡ []))
    → (0 < n
        → DiscardOf (want - n) (contents (advance m n ∷ rest)) (more (advance m n) rest (want - n)))
    → DiscardOf want (contents (m ∷ rest)) (discard_round (takes n) m rest want more)
takes-DiscardOf zero want m rest more b lw ll stop go = elim (stop refl) [
  | inl e ↦ rw e (omega arith, refl, b)
  | inr e ↦ rw e (omega arith, sym (drop-nil want), b)
]
takes-DiscardOf (suc n) want m rest more b lw ll stop go =
    rw (contents-advance m (suc n) b.0 ll rest) (
      with_count-DiscardOf (bytes_at m.bytes m.offset (suc n)) (contents (advance m (suc n) ∷ rest))
        (suc n) want _ (length-bytes_at m.bytes m.offset (suc n)) lw (go (omega arith)))

mbuf_discard_loop :
    (rounds : ℕ) (m : Mbuf) (rest : List Mbuf) (want : ℕ)
    → rounds_for m rest want < rounds
    → AllInBounds (m ∷ rest)
    → DiscardOf want (contents (m ∷ rest)) (mbuf_discard rounds m rest want)
unfolding mbuf_discard
mbuf_discard_loop zero m rest want h b = absurd (omega arith)
mbuf_discard_loop (suc rounds) m rest zero h b = (omega arith, refl, b)
mbuf_discard_loop (suc rounds) m rest (suc w) h b = elim (round_lem m rest (suc w)) [
  | inl (next, rest', e, z, r) ↦
      rw (r, contents-skip m next rest rest' b.0 e z)
        (mbuf_discard_loop rounds next rest' (suc w)
          (rounds-skip m next rest rest' (suc w) rounds e h) (AllInBounds-congr e b.1))
  | inr (ends, r) ↦ rw r (
      takes-DiscardOf (min (suc w) (mbuf_len_one m)) (suc w) m rest _ b (omega arith) (omega arith)
        (stops m rest (suc w) b.0 ends)
        λ pos.
          mbuf_discard_loop rounds (advance m _) rest _
            (rounds-advance m rest (suc w) rounds b.0 pos h)
            (advance-InBounds m _ b.0 (omega arith), b.1))
]

-- `mbuf_discard` of a chain in bounds ends, with two rounds for each mbuf: it returns the smaller
-- of the number asked for and the number of bytes there are, and leaves a chain in bounds that
-- holds the bytes behind them.
pub mbuf_discard-DiscardOf :
    (rounds : ℕ) (m : Mbuf) (rest : List Mbuf) (want : ℕ)
    → 2 * length rest + 1 < rounds
    → AllInBounds (m ∷ rest)
    → DiscardOf want (contents (m ∷ rest)) (mbuf_discard rounds m rest want)
mbuf_discard-DiscardOf rounds m rest want h b = mbuf_discard_loop rounds m rest want (omega arith) b
