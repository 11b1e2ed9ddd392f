-- ===== src/Kernel/Memory/Claim.antt =====
-- The loop of `pm_alloc` in kernel/memory.c that takes the pages.
use microkernel_book.Base.{
  ℕ, zero, suc, ◌+◌, ◌≤◌, ◌<◌, ◌≡◌, ◌≢◌, ◌⊎◌, inl, inr, refl, sym, ap, ◌∙◌, append_assoc,
  append-nil, false, ◌||◌, Option, none, some, List, [], ◌∷◌, ◌++◌, arith, ◌==◌, get_elem?, update,
  Bool-cases, Option-cases, get_elem?-modify_at_self, get_elem?-modify_at-none,
  get_elem?-modify_at_ne,
}
use microkernel_book.Kernel.State.{Kernel, Page, PageRef}
use microkernel_book.Kernel.Monad.{done, and_then, set_task}
use microkernel_book.Kernel.Memory.{
  read_page, modify_page, has_page, push_page, claim_pages, page_eq,
}

pub read-modify_self :
    (k : Kernel) (n i : ℕ) (f : Page → Page) (p : Page)
    → read_page k (n, i) ≡ some p
    → read_page (modify_page (n, i) f k) (n, i) ≡ some (f p)
unfolding read_page modify_page
read-modify_self k n i f p h = elim (Option-cases (get_elem? k.zones n)) [
  | inl e ↦ ground (arith)
  | inr (z, e) ↦ ground (
    arith,
    get_elem?-modify_at_self k.zones n (λ z. record z { pages = update z.pages i (f (z.pages i)) })
        e,
  )
]

read-modify_ne :
    (k : Kernel) (n i m j : ℕ) (f : Page → Page)
    → page_eq (m, j) (n, i) ≡ false
    → read_page (modify_page (n, i) f k) (m, j) ≡ read_page k (m, j)
unfolding read_page modify_page
read-modify_ne k n i m j f h = elim (Bool-cases (m == n)) [
  | inl same ↦ elim (Option-cases (get_elem? k.zones n)) [
    | inl e ↦ ground (
      arith,
      get_elem?-modify_at-none k.zones n
          (λ z. record z { pages = update z.pages i (f (z.pages i)) }) e,
    )
    | inr (z, e) ↦ ground (
      arith,
      get_elem?-modify_at_self k.zones n
          (λ z. record z { pages = update z.pages i (f (z.pages i)) }) e,
    )
  ]
  | inr other ↦ ground (
    arith,
    get_elem?-modify_at_ne k.zones n m (λ z. record z { pages = update z.pages i (f (z.pages i)) }),
  )
]

-- The owner's list with the page at its end.
abbrev pub add_page : ℕ → PageRef → Kernel → Kernel
add_page t p k = set_task t (λ x. record x { pages = x.pages ++ p ∷ [] }) k

read-add_page :
    (k : Kernel) (t : ℕ) (p : PageRef) (n i : ℕ)
    → read_page (add_page t p k) (n, i) ≡ read_page k (n, i)
unfolding read_page
read-add_page k t p n i = refl

-- The references of `count` pages from `start` on.
unfoldable pub refs : ℕ → ℕ → ℕ → List PageRef
refs n start zero = []
refs n start (suc count) = (n, start) ∷ refs n (start + 1) count

-- Every reference into the zone is to a page.
abbrev pub Readable : Kernel → ℕ → Type 0
Readable k n = (i : ℕ) → (p : Page) × (read_page k (n, i) ≡ some p)

-- None of the pages stands in the owner's list.
abbrev pub Unlisted : Kernel → Option ℕ → ℕ → ℕ → ℕ → Type 0
Unlisted k none n start count = Unit {0}
Unlisted k (some t) n start count =
    (i : ℕ) → start ≤ i → i < start + count → has_page (n, i) (k.tasks t).pages ≡ false

abbrev pub pages_of : Kernel → Option ℕ → List PageRef
pages_of k none = []
pages_of k (some t) = (k.tasks t).pages

abbrev pub listed : Option ℕ → List PageRef → List PageRef
listed none ps = []
listed (some t) ps = ps

-- The range belongs to the owner, is listed at its end, and nothing else changed.
pub record Claimed (k k' : Kernel) (owner : Option ℕ) (n start count : ℕ) : Type 0 where
  pub taken :
      (i : ℕ)
      → start ≤ i
      → i < start + count
      → read_page k' (n, i) ≡ some (record { owner = owner; ref_count = 1; next = owner })
  pub others :
      (m i : ℕ)
      → ((m ≢ n) ⊎ (i < start) ⊎ (start + count ≤ i))
      → read_page k' (m, i) ≡ read_page k (m, i)
  pub in_list : pages_of k' owner ≡ pages_of k owner ++ listed owner (refs n start count)
  pub same_bytes : k'.bytes ≡ k.bytes
  pub same_runqueue : k'.runqueue ≡ k.runqueue

has_page-append :
    (p q : PageRef) (ps : List PageRef) → has_page p (ps ++ q ∷ []) ≡ (has_page p ps || page_eq p q)
unfolding has_page
has_page-append p q [] = ground arith
has_page-append p q (x ∷ ps) = ground (arith, has_page-append p q ps)

-- The page taken in one round.
abbrev fresh_page : Option ℕ → Page
fresh_page owner = record { owner = owner; ref_count = 1; next = none }

abbrev taken_page : Kernel → Option ℕ → ℕ → ℕ → Kernel
taken_page k none n i = modify_page (n, i) (λ _. fresh_page none) k
taken_page k (some t) n i =
    modify_page (n, i) (λ page. record page { next = some t })
      (add_page t (n, i) (modify_page (n, i) (λ _. fresh_page (some t)) k))

pub push_page-done :
    (k : Kernel) (t : ℕ) (p : PageRef) (page : Page)
    → read_page k p ≡ some page
    → page.next ≡ none
    → has_page p (k.tasks t).pages ≡ false
    → push_page t p k
      ≡ done tt (modify_page p (λ page. record page { next = some t }) (add_page t p k))
unfolding push_page
push_page-done k t p page r e h = ground arith

module _ (k : Kernel) (n i : ℕ) (r : Readable k n) where
  fresh-read :
      (owner : Option ℕ)
      → read_page (modify_page (n, i) (λ _. fresh_page owner) k) (n, i) ≡ some (fresh_page owner)
  fresh-read owner = read-modify_self k n i (λ _. fresh_page owner) (r i).0 (r i).1

  -- Between the two writes to the page.
  abbrev queued : ℕ → Kernel
  queued t = add_page t (n, i) (modify_page (n, i) (λ _. fresh_page (some t)) k)

  taken-read :
      (owner : Option ℕ)
      → read_page (taken_page k owner n i) (n, i)
        ≡ some (record { owner = owner; ref_count = 1; next = owner })
  taken-read none = fresh-read none
  taken-read (some t) =
      read-modify_self (queued t) n i (λ page. record page { next = some t }) (fresh_page (some t))
        (read-add_page (modify_page (n, i) (λ _. fresh_page (some t)) k) t (n, i) n i
          ∙ fresh-read (some t))

  taken-others :
      (owner : Option ℕ) (m j : ℕ)
      → page_eq (m, j) (n, i) ≡ false
      → read_page (taken_page k owner n i) (m, j) ≡ read_page k (m, j)
  taken-others none m j h = read-modify_ne k n i m j _ h
  taken-others (some t) m j h =
      read-modify_ne (queued t) n i m j (λ page. record page { next = some t }) h
      ∙ read-add_page (modify_page (n, i) (λ _. fresh_page (some t)) k) t (n, i) m j
      ∙ read-modify_ne k n i m j (λ _. fresh_page (some t)) h

  taken-Readable : (owner : Option ℕ) → Readable (taken_page k owner n i) n
  taken-Readable owner j = elim (Bool-cases (j == i)) [
    | inl same ↦
        let e : j ≡ i = ground arith in
        (record { owner = owner; ref_count = 1; next = owner }, rw e (taken-read owner))
    | inr other ↦ ((r j).0, taken-others owner n j (ground arith) ∙ (r j).1)
  ]

  taken-pages :
      (owner : Option ℕ)
      → pages_of (taken_page k owner n i) owner ≡ pages_of k owner ++ listed owner ((n, i) ∷ [])
  unfolding modify_page
  taken-pages none = refl
  taken-pages (some t) = ground arith

  taken-Unlisted :
      (owner : Option ℕ) (count : ℕ)
      → Unlisted k owner n i (suc count)
      → Unlisted (taken_page k owner n i) owner n (i + 1) count
  taken-Unlisted none count u = tt
  taken-Unlisted (some t) count u = λ j lo hi.
      rw (taken-pages (some t), has_page-append) (ground (arith, u j (omega arith) (omega arith)))

  claim-step :
      (owner : Option ℕ) (count : ℕ)
      → Unlisted k owner n i (suc count)
      → claim_pages (suc count) owner n i k
        ≡ claim_pages count owner n (i + 1) (taken_page k owner n i)
  unfolding claim_pages
  claim-step none count u = refl
  claim-step (some t) count u =
      ap (λ o. and_then o λ _. claim_pages count (some t) n (i + 1))
        (push_page-done (modify_page (n, i) (λ _. fresh_page (some t)) k) t (n, i)
          (fresh_page (some t)) (fresh-read (some t)) refl (u i (omega arith) (omega arith)))

claim_pages-zero : (k : Kernel) (owner : Option ℕ) (n i : ℕ) → claim_pages 0 owner n i k ≡ done tt k
unfolding claim_pages
claim_pages-zero k owner n i = refl

taken-bytes :
    (k : Kernel) (n i : ℕ) (owner : Option ℕ)
    → ((taken_page k owner n i).bytes ≡ k.bytes) × ((taken_page k owner n i).runqueue ≡ k.runqueue)
unfolding modify_page
taken-bytes k n i none = (refl, refl)
taken-bytes k n i (some t) = (refl, refl)

listed-append :
    (owner : Option ℕ) (ps qs : List PageRef)
    → listed owner ps ++ listed owner qs ≡ listed owner (ps ++ qs)
listed-append none ps qs = refl
listed-append (some t) ps qs = refl

Claimed-zero : (k : Kernel) (owner : Option ℕ) (n i : ℕ) → Claimed k k owner n i 0
unfolding refs
Claimed-zero k owner n i = record {
  taken = λ j lo hi. absurd (omega arith);
  others = λ m j h. refl;
  in_list = empty owner;
  same_bytes = refl;
  same_runqueue = refl;
}
  where
    empty : (o : Option ℕ) → pages_of k o ≡ pages_of k o ++ listed o []
    empty none = refl
    empty (some t) = sym (append-nil (k.tasks t).pages)

Claimed-suc :
    (k k' : Kernel) (owner : Option ℕ) (n i count : ℕ)
    → Readable k n
    → Claimed (taken_page k owner n i) k' owner n (i + 1) count
    → Claimed k k' owner n i (suc count)
unfolding refs
Claimed-suc k k' owner n i count r c = record {
  taken = λ j lo hi. elim (Bool-cases (j == i)) [
    | inl same ↦
        let e : j ≡ i = ground arith in
        rw e (c.others n i (inr (inl (omega arith))) ∙ taken-read k n i r owner)
    | inr other ↦ c.taken j (ground arith) (omega arith)
  ];
  others = λ m j h. c.others m j (ground arith) ∙ taken-others k n i r owner m j (ground arith);
  in_list =
      c.in_list
      ∙ ap (λ ps. ps ++ listed owner (refs n (i + 1) count)) (taken-pages k n i r owner)
      ∙ append_assoc (pages_of k owner) _ _
      ∙ ap (λ ps. pages_of k owner ++ ps)
          (listed-append owner ((n, i) ∷ []) (refs n (i + 1) count));
  same_bytes = c.same_bytes ∙ (taken-bytes k n i owner).0;
  same_runqueue = c.same_runqueue ∙ (taken-bytes k n i owner).1;
}

-- The loop takes every page of the range for the owner and touches no other page.
pub claim_pages-Claimed :
    (count : ℕ) (k : Kernel) (owner : Option ℕ) (n i : ℕ)
    → Readable k n
    → Unlisted k owner n i count
    → (k' : Kernel) × (claim_pages count owner n i k ≡ done tt k') × Claimed k k' owner n i count
claim_pages-Claimed zero k owner n i r u =
    (k, claim_pages-zero k owner n i, Claimed-zero k owner n i)
claim_pages-Claimed (suc count) k owner n i r u =
    let (k', e, c) =
      claim_pages-Claimed count (taken_page k owner n i) owner n (i + 1)
        (taken-Readable k n i r owner) (taken-Unlisted k n i r owner count u) in
    (k', claim-step k n i r owner count u ∙ e, Claimed-suc k k' owner n i count r c)
