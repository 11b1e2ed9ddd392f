-- ===== src/Bytes/Text.antt =====
-- The strings of string.c: a text of `n` characters, and what the functions find and write.
use microkernel_book.Base.{
  ℕ, zero, suc, ◌+◌, ◌-◌, ◌≤◌, ◌<◌, ◌≡◌, ◌≢◌, ◌⊎◌, ◌↔◌, inl, inr, refl, sym, ap, ◌∙◌, ◌==◌, leb,
  min, false, some, if◌then◌else◌, arith, update, Bool-cases,
}
use microkernel_book.Bytes.{Bytes}
use microkernel_book.Bytes.Copy.{SameBytes, SameBytes-cons, memcmp-tail}
use microkernel_book.Bytes.Strings.{difference, strlen, strcmp, copy_string, strcpy_safe}

-- `n` characters from `s` on, and then a NUL.
pub record IsText (m : Bytes) (s n : ℕ) : Type 0 where
  pub ending : m (s + n) ≡ 0
  pub characters : (i : ℕ) → i < n → m (s + i) ≢ 0

IsText-first : {m : Bytes} {s n : ℕ} → IsText m s (suc n) → m s ≢ 0
IsText-first {m} {s} t e = t.characters 0 (omega arith) (ap m (omega arith) ∙ e)

IsText-head : {m : Bytes} {s : ℕ} → IsText m s 0 → m s ≡ 0
IsText-head {m} t = ap m (omega arith) ∙ t.ending

IsText-tail : {m : Bytes} {s n : ℕ} → IsText m s (suc n) → IsText m (s + 1) n
IsText-tail {m} {s} {n} t = record {
  ending = ap m (omega arith) ∙ t.ending;
  characters = λ i l e. t.characters (suc i) (omega arith) (ap m (omega arith) ∙ e);
}

-- A byte that the text does not hold does not matter.
IsText-update :
    {m : Bytes} {s n : ℕ} (d v : ℕ)
    → IsText m s n
    → (d < s) ⊎ (s + n < d)
    → IsText (update m d v) s n
IsText-update {m} {s} {n} d v t h = record {
  ending = ground (arith, h, t.ending);
  characters = λ i l e. t.characters i l (ground (arith, h, l, e));
}

-- `strlen` counts the characters.
pub strlen_lem :
    (fuel n : ℕ) (m : Bytes) (s len : ℕ)
    → IsText m s n
    → n < fuel
    → strlen fuel m s len ≡ some (len + n)
unfolding strlen
strlen_lem zero n m s len t h = absurd (omega arith)
strlen_lem (suc fuel) zero m s len t h =
    let e : m s ≡ 0 = IsText-head t in rw e (ap some (omega arith))
strlen_lem (suc fuel) (suc n) m s len t h =
    let ne : m s ≢ 0 = IsText-first t in
    let e : (m s == 0) ≡ false = ground (arith, ne) in
    rw e
      (strlen_lem fuel n m (s + 1) (len + 1) (IsText-tail t) (omega arith) ∙ ap some (omega arith))

-- The memory with a text of `len` characters from `src` copied to `dst`.
abbrev pub with_text : Bytes → ℕ → ℕ → ℕ → ℕ → ℕ
with_text m dst src len a =
    if leb dst a
    then (if leb (dst + len) a then (if a == dst + len then 0 else m a) else m (src + (a - dst)))
    else m a

copy_string_lem :
    (room n : ℕ) (m : Bytes) (dst src a : ℕ)
    → IsText m src n
    → (dst ≤ src) ⊎ (src + n < dst)
    → copy_string room m dst src a ≡ with_text m dst src (min n room) a
unfolding copy_string
copy_string_lem zero n m dst src a t h = ground arith
copy_string_lem (suc room) zero m dst src a t h =
    let e : m src ≡ 0 = IsText-head t in rw e (ground arith)
copy_string_lem (suc room) (suc n) m dst src a t h =
    let ne : m src ≢ 0 = IsText-first t in
    let e : (m src == 0) ≡ false = ground (arith, ne) in
    let m' : Bytes = update m dst (m src) in
    let t' : IsText m' (src + 1) n =
      IsText-update dst (m src) (IsText-tail t) (ground (arith, h)) in
    let step : copy_string (suc room) m dst src a ≡ copy_string room m' (dst + 1) (src + 1) a =
      rw e refl in
    step
    ∙ copy_string_lem room n m' (dst + 1) (src + 1) a t' (ground (arith, h))
    ∙ elim (Bool-cases (a == dst)) [
      | inl first ↦
          let s : m (src + (a - dst)) ≡ m src = ap m (ground arith) in ground (arith, h, s)
      | inr other ↦ elim (Bool-cases (leb (dst + 1) a)) [
        | inl above ↦
            let s : m (src + 1 + (a - (dst + 1))) ≡ m (src + (a - dst)) = ap m (ground arith) in
            ground (arith, h, s)
        | inr before ↦ ground (arith, h)
      ]
    ]

-- `strcpy_safe` of a text of `n` characters to a buffer of `room` bytes and one for the NUL, where
-- the text does not lie before the buffer and run into it: it copies as many characters as fit,
-- ends them with a NUL, and changes no other byte.
pub strcpy_safe-with_text :
    (room n : ℕ) (m : Bytes) (dst src : ℕ)
    → IsText m src n
    → (dst ≤ src) ⊎ (src + n < dst)
    → (m' : Bytes) × (strcpy_safe m dst (suc room) src ≡ some m')
      × ((a : ℕ) → m' a ≡ with_text m dst src (min n room) a)
unfolding strcpy_safe
strcpy_safe-with_text room n m dst src t h =
    (copy_string room m dst src, refl, λ a. copy_string_lem room n m dst src a t h)

-- The texts at two addresses are the same.
abbrev pub SameText : Bytes → ℕ → ℕ → ℕ → ℕ → Type 0
SameText m s1 n1 s2 n2 = (n1 ≡ n2) × SameBytes m s1 s2 n1

-- At bytes that differ, `strcmp` stops with their difference.
strcmp-apart :
    (fuel : ℕ) (m : Bytes) (s1 s2 : ℕ)
    → ((a : ℕ) → m a < 256)
    → m s1 ≢ m s2
    → (d : ℕ) × (strcmp (suc fuel) m s1 s2 ≡ some d) × (d ≢ 0)
unfolding strcmp
strcmp-apart fuel m s1 s2 b h =
    let other : (m s1 == m s2) ≡ false = ground (arith, h) in
    (difference (m s1) (m s2), rw other refl, λ z. ground (arith, z, h, b s1, b s2))

-- `strcmp` of two texts in a memory of bytes ends, with more fuel than the first has characters, and
-- it returns 0 exactly if they are the same.
pub strcmp_lem :
    (fuel n1 n2 : ℕ) (m : Bytes) (s1 s2 : ℕ)
    → ((a : ℕ) → m a < 256)
    → IsText m s1 n1
    → IsText m s2 n2
    → n1 < fuel
    → (d : ℕ) × (strcmp fuel m s1 s2 ≡ some d) × ((d ≡ 0) ↔ SameText m s1 n1 s2 n2)
unfolding strcmp
strcmp_lem zero n1 n2 m s1 s2 b t1 t2 h = absurd (omega arith)
strcmp_lem (suc fuel) zero zero m s1 s2 b t1 t2 h =
    let e : m s1 ≡ 0 = IsText-head t1 in
    let f : m s2 ≡ 0 = IsText-head t2 in
    (0, rw (e, f) refl, (λ _. (refl, λ i l. absurd (omega arith)), λ _. refl))
strcmp_lem (suc fuel) zero (suc n2) m s1 s2 b t1 t2 h =
    let first : m s2 ≢ 0 = IsText-first t2 in
    let (d, e, ne) = strcmp-apart fuel m s1 s2 b λ q. first (sym q ∙ IsText-head t1) in
    (d, e, (λ z. absurd (ne z), λ p. absurd (omega (arith, p.0))))
strcmp_lem (suc fuel) (suc n1) zero m s1 s2 b t1 t2 h =
    let first : m s1 ≢ 0 = IsText-first t1 in
    let (d, e, ne) = strcmp-apart fuel m s1 s2 b λ q. first (q ∙ IsText-head t2) in
    (d, e, (λ z. absurd (ne z), λ p. absurd (omega (arith, p.0))))
strcmp_lem (suc fuel) (suc n1) (suc n2) m s1 s2 b t1 t2 h = elim (Bool-cases (m s1 == m s2)) [
  | inl same ↦
      let first : m s1 ≢ 0 = IsText-first t1 in
      let nz : (m s1 == 0) ≡ false = ground (arith, first) in
      let (d, e, iff) =
        strcmp_lem fuel n1 n2 m (s1 + 1) (s2 + 1) b (IsText-tail t1) (IsText-tail t2)
          (omega arith) in
      let here : m s1 ≡ m s2 = ground (arith, same) in
      (
        d,
        rw (same, nz) e,
        (
          λ z. (ap suc (iff.0 z).0, SameBytes-cons m s1 s2 n1 here (iff.0 z).1),
          λ p. iff.1 (omega (arith, p.0), memcmp-tail m s1 s2 n1 p.1),
        ),
      )
  | inr other ↦
      let differ : m s1 ≢ m s2 = ground (arith, other) in
      let (d, e, ne) = strcmp-apart fuel m s1 s2 b differ in
      let head : SameText m s1 (suc n1) s2 (suc n2) → m s1 ≡ m s2 =
        λ p. ap m (omega arith) ∙ p.1 0 (omega arith) ∙ ap m (omega arith) in
      (d, e, (λ z. absurd (ne z), λ p. absurd (differ (head p))))
]
