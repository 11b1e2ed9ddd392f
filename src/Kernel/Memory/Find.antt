-- ===== src/Kernel/Memory/Find.antt =====
-- The searches of `pm_alloc` in kernel/memory.c.
use microkernel_book.Base.{
  ℕ, zero, suc, ◌+◌, ◌≤◌, ◌<◌, ◌≡◌, ◌⊎◌, inl, inr, refl, Bool, true, false, none, some, List, [],
  ◌∷◌, arith, ◌==◌, get_elem?, Bool-cases, Option-cases,
}
use microkernel_book.Kernel.State.{Zone}
use microkernel_book.Kernel.Memory.{
  free_loop, is_contiguously_free, AllocFlags, paddr_of, fits, find_start, find_free, is_free,
  is_aligned,
}

-- Every page of the range is free.
abbrev pub AllFree : Zone → ℕ → ℕ → Type 0
AllFree zone start count = (i : ℕ) → i < count → (zone.pages (start + i)).ref_count ≡ 0

free_loop-AllFree :
    (rounds : ℕ) (zone : Zone) (start i : ℕ)
    → free_loop rounds zone start i ≡ true
    → (j : ℕ) → i ≤ j
    → j < i + rounds
    → (zone.pages (start + j)).ref_count ≡ 0
unfolding free_loop
free_loop-AllFree zero zone start i h j p q = absurd (omega arith)
free_loop-AllFree (suc rounds) zone start i h j p q = elim (Bool-cases (i == j)) [
  | inl same ↦ let e : i ≡ j = ground arith in rw (← e) (ground arith)
  | inr other ↦
      free_loop-AllFree rounds zone start (i + 1) (ground arith) j (ground arith) (omega arith)
]

AllFree-free_loop :
    (rounds : ℕ) (zone : Zone) (start i : ℕ)
    → ((j : ℕ) → i ≤ j → j < i + rounds → (zone.pages (start + j)).ref_count ≡ 0)
    → free_loop rounds zone start i ≡ true
unfolding free_loop
AllFree-free_loop zero zone start i h = refl
AllFree-free_loop (suc rounds) zone start i h = ground (
  arith,
  h i (omega arith) (omega arith),
  AllFree-free_loop rounds zone start (i + 1) (λ j p q. h j (omega arith) (omega arith)),
)

-- The test looks at each page of the range.
pub is_contiguously_free-AllFree :
    (zone : Zone) (start count : ℕ)
    → is_contiguously_free zone start count ≡ true
    → AllFree zone start count
unfolding is_contiguously_free
is_contiguously_free-AllFree zone start count h i p =
    free_loop-AllFree count zone start 0 h i (omega arith) (omega arith)

pub AllFree-is_contiguously_free :
    (zone : Zone) (start count : ℕ)
    → AllFree zone start count
    → is_contiguously_free zone start count ≡ true
unfolding is_contiguously_free
AllFree-is_contiguously_free zone start count h =
    AllFree-free_loop count zone start 0 (λ j p q. h j (omega arith))

find_start-first :
    (rounds : ℕ) (test : ℕ → Bool) (s i : ℕ)
    → find_start rounds test s ≡ some i
    → (s ≤ i) × (i < s + rounds) × (test i ≡ true) × ((j : ℕ) → s ≤ j → j < i → test j ≡ false)
unfolding find_start
find_start-first zero test s i h = cc
find_start-first (suc rounds) test s i h = elim (Bool-cases (test s)) [
  | inl hit ↦ (ground arith, ground arith, ground arith, λ j p q. absurd (ground arith))
  | inr miss ↦
      let (lo, hi, t, before) = find_start-first rounds test (s + 1) i (ground arith) in
      (omega arith, omega arith, t, λ j p q. skip miss before j p q)
]
  where
    skip :
        test s ≡ false
        → ((j : ℕ) → s + 1 ≤ j → j < i → test j ≡ false)
        → (j : ℕ) → s ≤ j
        → j < i
        → test j ≡ false
    skip miss before j p q = elim (Bool-cases (s == j)) [
      | inl same ↦ let e : s ≡ j = ground arith in rw (← e) miss
      | inr other ↦ before j (ground arith) q
    ]

find_start-none :
    (rounds : ℕ) (test : ℕ → Bool) (s : ℕ)
    → find_start rounds test s ≡ none
    → (i : ℕ) → s ≤ i
    → i < s + rounds
    → test i ≡ false
unfolding find_start
find_start-none zero test s h i p q = absurd (omega arith)
find_start-none (suc rounds) test s h i p q = elim (Bool-cases (s == i)) [
  | inl same ↦ let e : s ≡ i = ground arith in rw (← e) (ground arith)
  | inr other ↦ find_start-none rounds test (s + 1) (ground arith) i (ground arith) (omega arith)
]

abbrev pub Found : Type 0
Found = record { zone : ℕ; start : ℕ; paddr : ℕ }

-- A place in a zone of free memory, with `count` free pages from `start` on.
pub record IsPlace (flags : AllocFlags) (aligned_size count : ℕ) (zone : Zone) (start : ℕ)
    : Type 0 where
  pub is_ram : is_free zone.type ≡ true
  pub within : start < zone.num_pages
  pub all_free : AllFree zone start count
  pub aligned : flags.aligned ≡ true → is_aligned (paddr_of zone start) aligned_size ≡ true

fits-IsPlace :
    (flags : AllocFlags) (aligned_size count : ℕ) (zone : Zone) (start : ℕ)
    → is_free zone.type ≡ true
    → start < zone.num_pages
    → fits flags aligned_size count zone start ≡ true
    → IsPlace flags aligned_size count zone start
unfolding fits
fits-IsPlace flags aligned_size count zone start f w h = record {
  is_ram = f;
  within = w;
  all_free = is_contiguously_free-AllFree zone start count (ground arith);
  aligned = λ a. ground arith;
}

IsPlace-fits :
    (flags : AllocFlags) (aligned_size count : ℕ) (zone : Zone) (start : ℕ)
    → IsPlace flags aligned_size count zone start
    → fits flags aligned_size count zone start ≡ true
unfolding fits
IsPlace-fits flags aligned_size count zone start p =
    ground (arith, AllFree-is_contiguously_free zone start count p.all_free, p.aligned)

module _ (flags : AllocFlags) (aligned_size count : ℕ) where
  -- No zone before the one at `j` has a place, nor has that one before `start`.
  abbrev pub NoneBefore : List Zone → ℕ → ℕ → Type 0
  NoneBefore zones j start =
      (i : ℕ) (z : Zone) (s : ℕ)
      → get_elem? zones i ≡ some z
      → (i < j) ⊎ ((i ≡ j) × (s < start))
      → ¬ IsPlace flags aligned_size count z s

  full_zone :
      (z : Zone)
      → find_start z.num_pages (fits flags aligned_size count z) 0 ≡ none
      → (s : ℕ) → ¬ IsPlace flags aligned_size count z s
  full_zone z full s p = ground (
    arith,
    IsPlace-fits flags aligned_size count z s p,
    find_start-none z.num_pages (fits flags aligned_size count z) 0 full s (omega arith)
        (omega (arith, p.within)),
  )

  abbrev FoundFrom : List Zone → ℕ → Found → Type 0
  FoundFrom zones n found =
      (j : ℕ) × (zone : Zone) × (found.zone ≡ n + j)
      × (get_elem? zones j ≡ some zone)
      × (found.paddr ≡ paddr_of zone found.start)
      × IsPlace flags aligned_size count zone found.start
      × NoneBefore zones j found.start

  NoneBefore-later :
      (z : Zone) (zones : List Zone) (j start : ℕ)
      → ((s : ℕ) → ¬ IsPlace flags aligned_size count z s)
      → NoneBefore zones j start
      → NoneBefore (z ∷ zones) (suc j) start
  NoneBefore-later z zones j start here later zero z' s g h p =
      let e : z' ≡ z = cc g in here s (rw e at p)
  NoneBefore-later z zones j start here later (suc i) z' s g h p =
      later i z' s g (ground (arith, h)) p

  pub find_free-from :
      (zones : List Zone) (n : ℕ) (found : Found)
      → find_free flags aligned_size count zones n ≡ some found
      → FoundFrom zones n found
  unfolding find_free
  find_free-from [] n found h = cc
  find_free-from (zone ∷ zones) n found h = elim (Bool-cases (is_free zone.type)) [
    | inl ram ↦
        elim (Option-cases (find_start zone.num_pages (fits flags aligned_size count zone) 0)) [
          | inl full ↦
              later (full_zone zone full) (find_free-from zones (n + 1) found (ground arith))
          | inr (start, hit) ↦
              let first =
                find_start-first zone.num_pages (fits flags aligned_size count zone) 0 start hit in
              let e : found ≡ record { zone = n; start = start; paddr = paddr_of zone start } =
                ground arith in
              rw e (
                0,
                zone,
                omega arith,
                refl,
                refl,
                fits-IsPlace flags aligned_size count zone start ram (omega arith) first.2,
                before start first.3,
              )
        ]
    | inr device ↦
        later (λ s p. ground (arith, device, p.is_ram))
          (find_free-from zones (n + 1) found (ground arith))
  ]
    where
      before :
          (start : ℕ)
          → ((j : ℕ) → 0 ≤ j → j < start → fits flags aligned_size count zone j ≡ false)
          → NoneBefore (zone ∷ zones) 0 start
      before start missed zero z s g lower p =
          let e : z ≡ zone = cc g in
          let t = IsPlace-fits flags aligned_size count zone s (rw e at p) in
          ground (arith, t, missed s, lower)
      before start missed (suc i) z s g lower p = absurd (ground (arith, lower))

      later :
          ((s : ℕ) → ¬ IsPlace flags aligned_size count zone s)
          → FoundFrom zones (n + 1) found
          → FoundFrom (zone ∷ zones) n found
      later none_here (j, z, e, g, p, i, b) =
          (suc j, z, omega arith, g, p, i, NoneBefore-later zone zones j found.start none_here b)

  -- No place is overlooked.
  pub find_free-none :
      (zones : List Zone) (n : ℕ)
      → find_free flags aligned_size count zones n ≡ none
      → (j : ℕ) (zone : Zone) (start : ℕ) → get_elem? zones j ≡ some zone
      → ¬ IsPlace flags aligned_size count zone start
  unfolding find_free
  find_free-none [] n h j zone start g p = cc
  find_free-none (z ∷ zones) n h (suc j) zone start g p =
      find_free-none zones (n + 1) (ground arith) j zone start g p
  find_free-none (z ∷ zones) n h zero zone start g p =
      let e : zone ≡ z = cc in
      let p' : IsPlace flags aligned_size count z start = (rw e at p) in
      let t = IsPlace-fits flags aligned_size count z start p' in
      elim (Option-cases (find_start z.num_pages (fits flags aligned_size count z) 0)) [
        | inl full ↦ ground (
          arith,
          t,
          find_start-none z.num_pages (fits flags aligned_size count z) 0 full start (omega arith)
              (omega (arith, p'.within)),
        )
        | inr (i, hit) ↦ ground (arith, p'.is_ram)
      ]
