-- ===== src/Malloc/Tiles.antt =====
-- Chunks that lie one behind the other and fill the heap (malloc.c).
use microkernel_book.Base.{
  ℕ, ◌+◌, ◌-◌, ◌≤◌, ◌≡◌, ◌≢◌, ◌⊎◌, inl, inr, sym, arith, true, List, [], ◌∷◌, ◌==◌, ◌||◌, has,
  Bool-cases, if◌then◌else◌, ==_iff,
}
use microkernel_book.Malloc.{Chunk, header_size}

-- The chunks `cs` fill the addresses from `a` to `hi`.
abbrev pub Tiles : (ℕ → Chunk) → ℕ → List ℕ → ℕ → Type 0
Tiles chunks a [] hi = a ≡ hi
Tiles chunks a (c ∷ cs) hi = (c ≡ a) × Tiles chunks (a + header_size + (chunks c).capacity) cs hi

pub Tiles-congr :
    (f g : ℕ → Chunk) (a : ℕ) (cs : List ℕ) (hi : ℕ)
    → ((c : ℕ) → has c cs ≡ true → (g c).capacity ≡ (f c).capacity)
    → Tiles f a cs hi
    → Tiles g a cs hi
Tiles-congr f g a [] hi e t = t
Tiles-congr f g a (c ∷ cs) hi e t = (
  t.0,
  rw (e c (ground arith)) (
      Tiles-congr f g (a + header_size + (f c).capacity) cs hi (λ d h. e d (ground (arith, h)))
        t.1),
)

Tiles-le : (f : ℕ → Chunk) (a : ℕ) (cs : List ℕ) (hi : ℕ) → Tiles f a cs hi → a ≤ hi
Tiles-le f a [] hi t = omega (arith, t)
Tiles-le f a (c ∷ cs) hi t = omega (arith, Tiles-le f (a + header_size + (f c).capacity) cs hi t.1)

-- A chunk of the heap lies in it.
pub Tiles-bounds :
    (f : ℕ → Chunk) (a : ℕ) (cs : List ℕ) (hi c : ℕ)
    → Tiles f a cs hi
    → has c cs ≡ true
    → (a ≤ c) × (c + header_size + (f c).capacity ≤ hi)
Tiles-bounds f a [] hi c t h = cc
Tiles-bounds f a (b ∷ cs) hi c t h = elim (Bool-cases (c == b)) [
  | inl same ↦
      let e = (==_iff c b).0 same in
      rw e (
        omega (arith, t.0),
        omega (arith, t.0, Tiles-le f (a + header_size + (f b).capacity) cs hi t.1),
      )
  | inr other ↦
      let r =
        Tiles-bounds f (a + header_size + (f b).capacity) cs hi c t.1 (ground (arith, h, other)) in
      (omega (arith, r), r.1)
]

-- Of two chunks one ends before the other starts.
pub Tiles-apart :
    (f : ℕ → Chunk) (a : ℕ) (cs : List ℕ) (hi c d : ℕ)
    → Tiles f a cs hi
    → has c cs ≡ true
    → has d cs ≡ true
    → c ≢ d
    → (c + header_size + (f c).capacity ≤ d) ⊎ (d + header_size + (f d).capacity ≤ c)
Tiles-apart f a [] hi c d t hc hd ne = cc
Tiles-apart f a (b ∷ cs) hi c d t hc hd ne = elim (Bool-cases (c == b)) [
  | inl first ↦
      let e = (==_iff c b).0 first in
      let behind =
        (Tiles-bounds f (a + header_size + (f b).capacity) cs hi d t.1
          (ground (arith, hd, e, ne))).0 in
      inl (rw e (omega (arith, t.0, behind)))
  | inr later ↦ elim (Bool-cases (d == b)) [
    | inl first ↦
        let e = (==_iff d b).0 first in
        let behind =
          (Tiles-bounds f (a + header_size + (f b).capacity) cs hi c t.1
            (ground (arith, hc, later))).0 in
        inr (rw e (omega (arith, t.0, behind)))
    | inr both ↦
        Tiles-apart f (a + header_size + (f b).capacity) cs hi c d t.1 (ground (arith, hc, later))
          (ground (arith, hd, both)) ne
  ]
]

-- The list with `n` behind the first `c`.
abbrev pub insert_after : ℕ → ℕ → List ℕ → List ℕ
insert_after c n [] = []
insert_after c n (b ∷ cs) = if c == b then b ∷ n ∷ cs else b ∷ insert_after c n cs

pub has-insert_after :
    (x c n : ℕ) (cs : List ℕ)
    → has c cs ≡ true
    → has x (insert_after c n cs) ≡ ((x == n) || has x cs)
has-insert_after x c n [] h = cc
has-insert_after x c n (b ∷ cs) h = ground (arith, has-insert_after x c n cs)

-- A chunk cut in two: `c` keeps `len` bytes, and the rest becomes a chunk behind it.
pub Tiles-split :
    (f g : ℕ → Chunk) (a : ℕ) (cs : List ℕ) (hi c len : ℕ)
    → Tiles f a cs hi
    → has c cs ≡ true
    → len + header_size ≤ (f c).capacity
    → (g c).capacity ≡ len
    → (g (c + header_size + len)).capacity ≡ (f c).capacity - len - header_size
    → ((d : ℕ) → has d cs ≡ true → d ≢ c → (g d).capacity ≡ (f d).capacity)
    → Tiles g a (insert_after c (c + header_size + len) cs) hi
Tiles-split f g a [] hi c len t h room ec en eo = cc
Tiles-split f g a (b ∷ cs) hi c len t h room ec en eo = elim (Bool-cases (c == b)) [
  | inl same ↦
      let e = (==_iff c b).0 same in
      let rest : Tiles g (a + header_size + (f b).capacity) cs hi =
        Tiles-congr f g (a + header_size + (f b).capacity) cs hi
          (λ d hd. eo d (ground (arith, hd)) (λ dc. omega (
            arith,
            dc,
            e,
            t.0,
            (Tiles-bounds f (a + header_size + (f b).capacity) cs hi d t.1 hd).0,
          )))
          t.1 in
      let ec' : (g b).capacity ≡ len = rw (sym e) ec in
      let en' : (g (b + header_size + len)).capacity ≡ (f b).capacity - len - header_size =
        rw e at en in
      let room' : len + header_size ≤ (f b).capacity = rw e at room in
      rw same (
        t.0,
        (
          omega (arith, e, t.0, ec'),
          let start : a
                    + header_size
                    + (g b).capacity
                    + header_size
                    + (g (c + header_size + len)).capacity
                  ≡ a + header_size + (f b).capacity =
                rw e (omega (arith, ec', en', room')) in
              rw start rest,
        ),
      )
  | inr other ↦
      let eb = eo b (ground arith) (λ bc. ground (arith, other, bc)) in
      rw other (
        t.0,
        rw eb (
            Tiles-split f g (a + header_size + (f b).capacity) cs hi c len t.1
              (ground (arith, h, other)) room ec en (λ d hd. eo d (ground (arith, hd)))),
      )
]
