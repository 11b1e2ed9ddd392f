-- ===== src/Mbuf/Contents.antt =====
-- servers/tcpip/mbuf.c: the bytes that a chain holds.
use microkernel_book.Base.{
  ℕ, zero, suc, ◌+◌, ◌-◌, ◌^◌, ◌≤◌, ◌<◌, ◌≡◌, refl, sym, ap, ◌∙◌, arith, List, [], ◌∷◌, ◌++◌,
  length, length-append,
}
use microkernel_book.Mbuf.Ops.{Mbuf, mbuf_max_len, bytes_at, copy_to, mbuf_len_one, mbuf_len}

-- The bytes of an mbuf and of a chain.
abbrev pub bytes_of : Mbuf → List ℕ
bytes_of m = bytes_at m.bytes m.offset (m.offset_end - m.offset)

abbrev pub contents : List Mbuf → List ℕ
contents [] = []
contents (m ∷ rest) = bytes_of m ++ contents rest

-- The offsets lie in order and in the array.
abbrev pub InBounds : Mbuf → Type 0
InBounds m = (m.offset ≤ m.offset_end) × (m.offset_end ≤ mbuf_max_len)

abbrev pub AllInBounds : List Mbuf → Type 0
AllInBounds [] = Unit {0}
AllInBounds (m ∷ rest) = InBounds m × AllInBounds rest

-- The first `n` bytes of a list, and the others.
abbrev pub take {ℓ} : {A : Type ℓ} → ℕ → List A → List A
take zero xs = []
take (suc n) [] = []
take (suc n) (x ∷ xs) = x ∷ take n xs

abbrev pub drop {ℓ} : {A : Type ℓ} → ℕ → List A → List A
drop zero xs = xs
drop (suc n) [] = []
drop (suc n) (x ∷ xs) = drop n xs

pub take-nil : (n : ℕ) → take {A = ℕ} n [] ≡ []
take-nil zero = refl
take-nil (suc n) = refl

module _ {ℓ} {A : Type ℓ} where
  pub take-append :
      (n : ℕ) (xs ys : List A) → length xs ≤ n → take n (xs ++ ys) ≡ xs ++ take (n - length xs) ys
  take-append n [] ys h = ap (λ m. take m ys) (omega arith)
  take-append zero (x ∷ xs) ys h = absurd (omega arith)
  take-append (suc n) (x ∷ xs) ys h =
      ap (λ t. x ∷ t) (take-append n xs ys (omega arith) ∙ ap (λ m. xs ++ take m ys) (omega arith))

  pub take-append_le : (n : ℕ) (xs ys : List A) → n ≤ length xs → take n (xs ++ ys) ≡ take n xs
  take-append_le zero xs ys h = refl
  take-append_le (suc n) [] ys h = absurd (omega arith)
  take-append_le (suc n) (x ∷ xs) ys h = ap (λ t. x ∷ t) (take-append_le n xs ys (omega arith))

  pub drop-append :
      (n : ℕ) (xs ys : List A) → length xs ≤ n → drop n (xs ++ ys) ≡ drop (n - length xs) ys
  drop-append n [] ys h = ap (λ m. drop m ys) (omega arith)
  drop-append zero (x ∷ xs) ys h = absurd (omega arith)
  drop-append (suc n) (x ∷ xs) ys h =
      drop-append n xs ys (omega arith) ∙ ap (λ m. drop m ys) (omega arith)

  pub drop-append_le :
      (n : ℕ) (xs ys : List A) → n ≤ length xs → drop n (xs ++ ys) ≡ drop n xs ++ ys
  drop-append_le zero xs ys h = refl
  drop-append_le (suc n) [] ys h = absurd (omega arith)
  drop-append_le (suc n) (x ∷ xs) ys h = drop-append_le n xs ys (omega arith)

pub length-bytes_at : (f : ℕ → ℕ) (at len : ℕ) → length (bytes_at f at len) ≡ len
unfolding bytes_at
length-bytes_at f at zero = refl
length-bytes_at f at (suc len) = ap suc (length-bytes_at f (at + 1) len)

pub bytes_at-add :
    (f : ℕ → ℕ) (at n len : ℕ)
    → bytes_at f at (n + len) ≡ bytes_at f at n ++ bytes_at f (at + n) len
unfolding bytes_at
bytes_at-add f at zero len = grind arith
bytes_at-add f at (suc n) len = grind (arith, bytes_at-add f (at + 1) n len)

pub take-bytes_at :
    (f : ℕ → ℕ) (at n len : ℕ) → n ≤ len → take n (bytes_at f at len) ≡ bytes_at f at n
unfolding bytes_at
take-bytes_at f at zero len h = refl
take-bytes_at f at (suc n) zero h = absurd (omega arith)
take-bytes_at f at (suc n) (suc len) h =
    ap (λ t. f at ∷ t) (take-bytes_at f (at + 1) n len (omega arith))

pub drop-bytes_at :
    (f : ℕ → ℕ) (at n len : ℕ)
    → n ≤ len
    → drop n (bytes_at f at len) ≡ bytes_at f (at + n) (len - n)
unfolding bytes_at
drop-bytes_at f at zero len h = grind arith
drop-bytes_at f at (suc n) zero h = absurd (omega arith)
drop-bytes_at f at (suc n) (suc len) h = grind (arith, drop-bytes_at f (at + 1) n len)

-- Equal bytes at two places.
pub bytes_at-congr :
    (f g : ℕ → ℕ) (a b len : ℕ)
    → ((i : ℕ) → i < len → f (a + i) ≡ g (b + i))
    → bytes_at f a len ≡ bytes_at g b len
unfolding bytes_at
bytes_at-congr f g a b zero h = refl
bytes_at-congr f g a b (suc len) h =
    let head : f a ≡ g b = ap f (omega arith) ∙ h 0 (omega arith) ∙ ap g (omega arith) in
    let tail : bytes_at f (a + 1) len ≡ bytes_at g (b + 1) len =
      bytes_at-congr f g (a + 1) (b + 1) len
        λ i lt. ap f (omega arith) ∙ h (suc i) (omega arith) ∙ ap g (omega arith) in
    λ i. head i ∷ tail i

-- The bytes that `copy_to` wrote, and those below them.
pub copy_to-bytes_at :
    (old : ℕ → ℕ) (dst : ℕ) (src : ℕ → ℕ) (at len : ℕ)
    → bytes_at (copy_to old dst src at len) dst len ≡ bytes_at src at len
copy_to-bytes_at old dst src at len =
    bytes_at-congr _ _ dst at len
      λ i lt. let same : dst + i - dst ≡ i = omega arith in ground (arith, same)

pub copy_to-below :
    (old : ℕ → ℕ) (dst : ℕ) (src : ℕ → ℕ) (at len lo n : ℕ)
    → lo + n ≤ dst
    → bytes_at (copy_to old dst src at len) lo n ≡ bytes_at old lo n
copy_to-below old dst src at len lo n h = bytes_at-congr _ _ lo lo n λ i lt. ground arith

module _ (m : Mbuf) where
  pub mbuf_len_one-length : InBounds m → mbuf_len_one m ≡ m.offset_end - m.offset
  unfolding mbuf_len_one
  mbuf_len_one-length h = omega (arith, h.0, h.1)

  pub length-bytes_of : InBounds m → length (bytes_of m) ≡ mbuf_len_one m
  length-bytes_of h = length-bytes_at _ _ _ ∙ sym (mbuf_len_one-length h)

-- `mbuf_len` of a chain whose bytes can be counted in 32 bits is their number.
pub mbuf_len-length :
    (chain : List Mbuf)
    → AllInBounds chain
    → length (contents chain) < 2 ^ 32
    → mbuf_len chain ≡ length (contents chain)
unfolding mbuf_len
mbuf_len-length [] b h = refl
mbuf_len-length (m ∷ rest) (b, bs) h =
    let total : length (contents (m ∷ rest)) ≡ mbuf_len_one m + length (contents rest) =
      length-append (bytes_of m) (contents rest)
      ∙ ap (λ n. n + length (contents rest)) (length-bytes_of m b) in
    let others = mbuf_len-length rest bs (omega arith) in rw others (omega (arith, total, h))
