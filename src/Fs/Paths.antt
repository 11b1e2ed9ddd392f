-- ===== src/Fs/Paths.antt =====
-- Which entry a path names: `lookup` of servers/fs/fs.c.
use microkernel_book.Base.{
  ℕ, ◌≡◌, inl, inr, refl, ap, ◌∙◌, fun_ext, arith, Bool, true, false, List, [], ◌∷◌, ◌++◌, ◌+◌,
  zero, suc, map, length, ◌&&◌, ◌==◌, has, Bool-cases, Option, none, some, if◌then◌else◌,
}
use microkernel_book.Bytes.{Bytes}
use microkernel_book.Fs.Cache.{block_read}
use microkernel_book.Fs.State.{
  upto, stop, entry_block, Fs, Device, Result, ok, err, not_found, M, pure, ◌>>=◌, ◌>>◌, get,
  assert, and_ok, num_entries,
}
use microkernel_book.Fs.Ops.{
  slash, name_is, find_entry, components, skip_slashes, is_nil, tail, is_skipped, is_parent,
  found_entry, lookup_loop, lookup,
}

-- The text from byte 4 on, where an entry has its name, is `name` with its NUL.
abbrev pub same_list : List ℕ → List ℕ → Bool
same_list [] [] = true
same_list [] (y ∷ ys) = false
same_list (x ∷ xs) [] = false
same_list (x ∷ xs) (y ∷ ys) = x == y && same_list xs ys

abbrev pub is_named : List ℕ → Bytes → Bool
is_named name m = same_list (map (λ j. m (4 + j)) (upto 0 (length name + 1))) (name ++ 0 ∷ [])

-- The first of the entries of a directory, from entry `i` on, whose block passes the test.
unfoldable pub first_entry : ℕ → (Bytes → Bool) → Device → ℕ → ℕ → M (Result (Option ℕ))
first_entry zero test dev dir i = pure (ok none)
first_entry (suc count) test dev dir i =
    let rest = first_entry count test dev dir (i + 1) in
    (do
      s ← get
      r ← block_read dev (entry_block (s.blocks dir).content i)
      and_ok r λ eb. (do s ← get; if test (s.blocks eb).content then pure (ok (some eb)) else rest))

-- The entry of that name in a directory goes on to `next`. A file fails the assertion.
abbrev pub found_next : Option ℕ → (ℕ → M (Result ℕ)) → M (Result ℕ)
found_next none next = pure (err not_found)
found_next (some eb) next = next eb

unfoldable pub enter : Device → List ℕ → ℕ → (ℕ → M (Result ℕ)) → M (Result ℕ)
unfolding first_entry
enter dev name dir next = do
  s ← get
  (if (s.blocks dir).content 0 == 0xdd
      then (do
        r ← first_entry (num_entries (s.blocks dir).content) (is_named name) dev dir 0
        and_ok r λ found. found_next found next)
      else stop)

and_true : (b : Bool) → b ≡ (b && true)
and_true true = refl
and_true false = refl

name_is-same_list :
    (name : List ℕ) (m : Bytes) (a i : ℕ)
    → name_is m (a + i) name
      ≡ same_list (map (λ j. m (a + j)) (upto i (length name + 1))) (name ++ 0 ∷ [])
unfolding upto
name_is-same_list name m a i =
    let e : suc (length name) ≡ length name + 1 = omega arith in
    at_suc name i ∙ ap (λ n. same_list (map (λ j. m (a + j)) (upto i n)) (name ++ 0 ∷ [])) e
  where
    at_suc :
        (name : List ℕ) (i : ℕ)
        → name_is m (a + i) name
          ≡ same_list (map (λ j. m (a + j)) (upto i (suc (length name)))) (name ++ 0 ∷ [])
    at_suc [] i = and_true (m (a + i) == 0)
    at_suc (c ∷ cs) i =
        ap (λ b. m (a + i) == c && b) (ap (λ p. name_is m p cs) (omega arith) ∙ at_suc cs (i + 1))

name_is-is_named : (name : List ℕ) → (λ (m : Bytes). name_is m 4 name) ≡ is_named name
name_is-is_named name = fun_ext λ m. name_is-same_list name m 4 0

find_entry-first_entry :
    (count : ℕ) (dev : Device) (name : List ℕ) (dir i : ℕ)
    → find_entry count dev name dir i ≡ first_entry count (λ m. name_is m 4 name) dev dir i
unfolding find_entry first_entry
find_entry-first_entry zero dev name dir i = refl
find_entry-first_entry (suc count) dev name dir i =
    ap
      (λ (rest : M (Result (Option ℕ))). get >>= λ s.
        block_read dev (entry_block (s.blocks dir).content i) >>= λ r. and_ok r λ eb.
          get >>= λ s. if name_is (s.blocks eb).content 4 name then pure (ok (some eb)) else rest)
      (find_entry-first_entry count dev name dir (i + 1))

find_entry-named :
    (count : ℕ) (dev : Device) (name : List ℕ) (dir i : ℕ)
    → find_entry count dev name dir i ≡ first_entry count (is_named name) dev dir i
find_entry-named count dev name dir i =
    find_entry-first_entry count dev name dir i
    ∙ ap (λ t. first_entry count t dev dir i) (name_is-is_named name)

assert-if : (b : Bool) (m : M (Result ℕ)) → assert b >> m ≡ (if b then m else stop)
assert-if true m = refl
assert-if false m = refl

-- The entry that a sequence of names leads to.
abbrev pub resolve : Device → List (List ℕ) → ℕ → M (Result ℕ)
resolve dev [] dir = pure (ok dir)
resolve dev (name ∷ names) dir = enter dev name dir (resolve dev names)

-- The parts of a path that are names: not empty and not ".".
abbrev pub names : List (List ℕ) → List (List ℕ)
names [] = []
names (p ∷ ps) = if is_skipped p then names ps else p ∷ names ps

-- No part is "..", and the last one is a name.
abbrev pub IsPlain : List (List ℕ) → Type 0
IsPlain [] = ⊥
IsPlain (p ∷ []) = (is_skipped p ≡ false) × (is_parent p ≡ false)
IsPlain (p ∷ q ∷ ps) = (is_parent p ≡ false) × IsPlain (q ∷ ps)

found_last :
    (parent_dir : Bool) (p : List ℕ) (o : Option ℕ) (next : ℕ → M (Result ℕ))
    → found_entry parent_dir p [] o next ≡ found_next o (λ eb. pure (ok eb))
found_last parent_dir p none next = refl
found_last parent_dir p (some eb) next = refl

found_more :
    (p q : List ℕ) (ps : List (List ℕ)) (o : Option ℕ) (next : ℕ → M (Result ℕ))
    → found_entry false p (q ∷ ps) o next ≡ found_next o next
found_more p q ps none next = refl
found_more p q ps (some eb) next = refl

found_parent :
    (p : List ℕ) (ps : List (List ℕ)) (o : Option ℕ) (next : ℕ → M (Result ℕ))
    → has slash (tail p) ≡ false
    → found_entry true p ps o next ≡ found_next o (λ eb. pure (ok eb))
found_parent p ps none next h = refl
found_parent p [] (some eb) next h = refl
found_parent p (q ∷ ps) (some eb) next h = rw h refl

-- One round of the loop at a name.
round-enter :
    (dev : Device) (parent_dir : Bool) (p : List ℕ) (rest : List (List ℕ)) (dir : ℕ)
    (next : ℕ → M (Result ℕ))
    → is_skipped p ≡ false
    → is_parent p ≡ false
    → ((o : Option ℕ)
        → found_entry parent_dir p rest o (λ d. lookup_loop dev parent_dir rest d)
          ≡ found_next o next)
    → lookup_loop dev parent_dir (p ∷ rest) dir ≡ enter dev p dir next
unfolding lookup_loop enter
round-enter dev parent_dir p rest dir next real plain same =
    rw (real, plain)
      (fun_ext λ s.
        ap (λ (f : M (Result ℕ)). f s)
          (assert-if ((s.blocks dir).content 0 == 0xdd) _
            ∙ ap
                (λ (g : M (Result (Option ℕ))).
                  if (s.blocks dir).content 0 == 0xdd
                  then g >>= (λ r.
                    and_ok r
                      λ o. found_entry parent_dir p rest o (λ d. lookup_loop dev parent_dir rest d))
                  else stop)
                (find_entry-named (num_entries (s.blocks dir).content) dev p dir 0)
            ∙ ap
                (λ (f : Option ℕ → M (Result ℕ)).
                  if (s.blocks dir).content 0 == 0xdd
                  then first_entry (num_entries (s.blocks dir).content) (is_named p) dev dir 0
                    >>= (λ r. and_ok r f)
                  else stop)
                (fun_ext same)))

round-skip :
    (dev : Device) (p q : List ℕ) (ps : List (List ℕ)) (dir : ℕ)
    → is_skipped p ≡ true
    → lookup_loop dev false (p ∷ q ∷ ps) dir ≡ lookup_loop dev false (q ∷ ps) dir
unfolding lookup_loop
round-skip dev p q ps dir skip = rw skip refl

lookup_loop-resolve :
    (dev : Device) (ps : List (List ℕ)) (dir : ℕ)
    → IsPlain ps
    → lookup_loop dev false ps dir ≡ resolve dev (names ps) dir
lookup_loop-resolve dev [] dir h = absurd h
lookup_loop-resolve dev (p ∷ []) dir h =
    rw h.0 (round-enter dev false p [] dir _ h.0 h.1 (λ o. found_last false p o _))
lookup_loop-resolve dev (p ∷ q ∷ ps) dir h = elim (Bool-cases (is_skipped p)) [
  | inl skip ↦ rw skip (round-skip dev p q ps dir skip ∙ lookup_loop-resolve dev (q ∷ ps) dir h.1)
  | inr real ↦ rw real (
      round-enter dev false p (q ∷ ps) dir _ real h.0 (λ o.
        found_more p q ps o _
        ∙ ap (found_next o) (fun_ext (λ d. lookup_loop-resolve dev (q ∷ ps) d h.1))))
]

-- The first part of a path has no slash.
first_part :
    (cs : List ℕ)
    → (p : List ℕ) × (rest : List (List ℕ)) × (components cs ≡ p ∷ rest) × (has slash p ≡ false)
first_part [] = ([], [], refl, refl)
first_part (c ∷ cs) =
    let (p, rest, e, h) = first_part cs in
    elim (Bool-cases (c == slash)) [
      | inl here ↦ ([], components cs, rw here refl, refl)
      | inr other ↦ (c ∷ p, rest, rw (other, e) refl, ground (arith, other, h))
    ]

has-tail : (p : List ℕ) → has slash p ≡ false → has slash (tail p) ≡ false
has-tail [] h = refl
has-tail (c ∷ cs) h = ground (arith, h)

nil_of : (xs : List ℕ) → is_nil xs ≡ true → xs ≡ []
nil_of [] e = refl
nil_of (x ∷ xs) e = cc

more_of : (xs : List ℕ) → has slash xs ≡ true → is_nil xs ≡ false
more_of [] e = cc
more_of (x ∷ xs) e = refl

-- A path, by its parts.
abbrev pub join : List (List ℕ) → List ℕ
join [] = []
join (p ∷ []) = p
join (p ∷ q ∷ ps) = p ++ slash ∷ join (q ∷ ps)

abbrev pub SlashFree : List (List ℕ) → Type 0
SlashFree [] = Unit {0}
SlashFree (p ∷ ps) = (has slash p ≡ false) × SlashFree ps

components_one : (p : List ℕ) → has slash p ≡ false → components p ≡ p ∷ []
components_one [] h = refl
components_one (c ∷ cs) h =
    let other : (c == slash) ≡ false = ground (arith, h) in
    let later : has slash cs ≡ false = ground (arith, h) in rw (other, components_one cs later) refl

components_more :
    (p cs : List ℕ) → has slash p ≡ false → components (p ++ slash ∷ cs) ≡ p ∷ components cs
components_more [] cs h = refl
components_more (c ∷ p) cs h =
    let other : (c == slash) ≡ false = ground (arith, h) in
    let later : has slash p ≡ false = ground (arith, h) in
    rw (other, components_more p cs later) refl

components-join :
    (p : List ℕ) (ps : List (List ℕ)) → SlashFree (p ∷ ps) → components (join (p ∷ ps)) ≡ p ∷ ps
components-join p [] h = components_one p h.0
components-join p (q ∷ ps) h =
    components_more p (join (q ∷ ps)) h.0 ∙ ap (λ t. p ∷ t) (components-join q ps h.1)

-- Slashes at the front are empty parts, which do not matter.
IsPlain-same :
    (xs ys : List ℕ)
    → xs ≡ ys
    → IsPlain (components ys)
    → IsPlain (components xs) × (names (components xs) ≡ names (components ys))
IsPlain-same xs ys e h = rw e (h, refl)

skip_slashes-IsPlain :
    (cs : List ℕ)
    → IsPlain (components cs)
    → IsPlain (components (skip_slashes cs))
      × (names (components (skip_slashes cs)) ≡ names (components cs))
skip_slashes-IsPlain [] h = (h, refl)
skip_slashes-IsPlain (c ∷ cs) h = elim (Bool-cases (c == slash)) [
  | inr other ↦ IsPlain-same (skip_slashes (c ∷ cs)) (c ∷ cs) (rw other refl) h
  | inl here ↦
      let (p, rest, e, _) = first_part cs in
      let front : IsPlain ([] ∷ components cs) = rw here at h in
      let plain : IsPlain (components cs) = rw e ((rw e at front).1) in
      let r = skip_slashes-IsPlain cs plain in rw here r
]

-- `lookup` of the path with these parts between slashes, none of them ".." and the last one neither
-- empty nor ".", is the walk from the root through the directories by the parts, the empty ones and
-- "." left out: in each directory it takes the first entry whose name is the part and its NUL, ends
-- with the error of a block that cannot be read or with ERR_NOT_FOUND, or fails the assertion if it
-- is no directory.
pub lookup-resolve :
    (dev : Device) (parts : List (List ℕ)) (s : Fs)
    → SlashFree parts
    → IsPlain parts
    → lookup dev (join parts) false s ≡ resolve dev (names parts) s.root s
unfolding lookup
lookup-resolve dev [] s free plain = absurd plain
lookup-resolve dev (p ∷ ps) s free plain =
    let path = join (p ∷ ps) in
    let same : components path ≡ p ∷ ps = components-join p ps free in
    let (plain', names') = skip_slashes-IsPlain path (rw same plain) in
    elim (Bool-cases (is_nil (skip_slashes path))) [
      | inl root ↦ cc ((rw (nil_of (skip_slashes path) root) at plain').0)
      | inr more ↦ rw more (
          ap (λ m. m s) (lookup_loop-resolve dev (components (skip_slashes path)) s.root plain')
          ∙ ap (λ ns. resolve dev ns s.root s) (names' ∙ ap names same))
    ]

-- `lookup` with `parent_dir` of a path of two or more parts is the lookup of its first part alone,
-- if that is a name and not "..".
pub lookup-parent :
    (dev : Device) (path p : List ℕ) (rest : List (List ℕ)) (s : Fs)
    → has slash (skip_slashes path) ≡ true
    → components (skip_slashes path) ≡ p ∷ rest
    → is_skipped p ≡ false
    → is_parent p ≡ false
    → lookup dev path true s ≡ resolve dev (p ∷ []) s.root s
unfolding lookup
lookup-parent dev path p rest s more e real plain =
    let (p', rest', e', free) = first_part (skip_slashes path) in
    let same : p' ≡ p = cc (e, e') in
    let no_nil : is_nil (skip_slashes path) ≡ false = more_of (skip_slashes path) more in
    rw (no_nil, more, e)
      (ap (λ m. m s)
        (round-enter dev true p rest s.root _ real plain
          (λ o. found_parent p rest o _ (has-tail p (rw same at free)))))
