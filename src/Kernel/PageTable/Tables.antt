-- ===== src/Kernel/PageTable/Tables.antt =====
-- Making a second table in kernel/riscv32/vm.c.
use microkernel_book.Base.{
  ℕ, ◌+◌, ◌*◌, ◌/◌, ◌%◌, ◌^◌, ◌<◌, ◌≡◌, ◌≢◌, ◌⊎◌, inl, inr, refl, sym, ap, ◌∙◌, arith, true, false,
  ◌==◌, ==_iff, Bool-cases,
}
use microkernel_book.Bytes.Words.{load32, store32, load32-store32_self, load32-store32_apart}
use microkernel_book.Kernel.State.{Kernel, Zone, page_size, ok, err, no_memory}
use microkernel_book.Kernel.Monad.{done}
use microkernel_book.Kernel.Memory.{paddr_of}
use microkernel_book.Kernel.PageTable.{pte_index1, pte_index0, pte_paddr, pte_v, have_table}
use microkernel_book.Kernel.PageTable.Walk.{
  first, lookup, IsUsed, IsTable, pages_apart, slots_apart, pte_paddr-aligned, lookup_none,
  lookup_there,
}
use microkernel_book.Kernel.PageTable.Fresh.{
  IsMemory, IsFree, NoFreePage, with_page, page_alloc, new-aligned, new-ne, used-kept, new-IsUsed,
  new-zero, old-bytes,
}

-- A new second table at the page `i` of the zone `n`, entered at `j` of the first table.
abbrev entered : ℕ → ℕ → ℕ → ℕ → ℕ → Kernel → Kernel
entered base j n i q k =
    let k1 = with_page n i q k in
    record k1 { bytes = store32 k1.bytes (base + 4 * j) (q / 2 ^ 12 * 2 ^ 10 + pte_v) }

pub pte_paddr-construct :
    (p flags : ℕ)
    → p % page_size ≡ 0
    → p < 2 ^ 32
    → flags < 1024
    → pte_paddr (p / 2 ^ 12 * 2 ^ 10 + flags) ≡ p
pte_paddr-construct p flags hp below hf = omega arith

-- What the bytes hold does not matter for the pages in use.
pub used_bytes : {k : Kernel} {p : ℕ} (m : ℕ → ℕ) → IsUsed k p → IsUsed (record k { bytes = m }) p
used_bytes m u = record {
  n = u.n;
  i = u.i;
  zone = u.zone;
  is_zone = u.is_zone;
  within = u.within;
  address = u.address;
  counted = u.counted;
}

module _ (k : Kernel) (base j n i : ℕ) (z : Zone) (f : IsFree k n i z) (mem : IsMemory k)
    (t : IsTable k base) (below : j < 1024) (vacant : first k.bytes base j ≡ 0) where
  abbrev page : ℕ
  page = paddr_of z i

  abbrev after : Kernel
  after = entered base j n i page k

  first-entered : first after.bytes base j ≡ page / 2 ^ 12 * 2 ^ 10 + pte_v
  first-entered = load32-store32_self _ (base + 4 * j) _ (omega arith)

  old_entries : (l : ℕ) → l < 1024 → l ≢ j → first after.bytes base l ≡ first k.bytes base l
  old_entries l hl ne =
      load32-store32_apart (with_page n i page k).bytes (base + 4 * j) _ (base + 4 * l)
        (slots_apart base j l (λ e. ne (sym e)))
      ∙ old-bytes k n i z f mem base page l t.aligned (new-aligned k n i z f mem).0
          (new-ne k n i z f mem base t.used) hl

  aligned : page % page_size ≡ 0
  aligned = (new-aligned k n i z f mem).0

  new_paddr : pte_paddr (first after.bytes base j) ≡ page
  new_paddr =
      ap pte_paddr first-entered
      ∙ pte_paddr-construct page pte_v aligned (omega arith) (omega arith)

  kept : (p : ℕ) → IsUsed k p → IsUsed after p
  kept p u = used_bytes after.bytes (used-kept k n i z f mem p page u)

  -- The tables that were there and the new one.
  entry-cases :
      (l : ℕ)
      → l < 1024
      → first after.bytes base l ≢ 0
      → ((l ≡ j) × (pte_paddr (first after.bytes base l) ≡ page))
        ⊎ ((l ≢ j) × (first after.bytes base l ≡ first k.bytes base l) × (first k.bytes base l ≢ 0))
  entry-cases l hl there = elim (Bool-cases (l == j)) [
    | inl same ↦ let e = (==_iff l j).0 same in inl (e, rw e new_paddr)
    | inr other ↦
        let ne : l ≢ j = λ e. ground (arith, other, e) in
        inr (ne, old_entries l hl ne, λ zero_entry. there (old_entries l hl ne ∙ zero_entry))
  ]

  entered-IsTable : IsTable after base
  entered-IsTable = record {
    used = kept base t.used;
    aligned = t.aligned;
    second = λ l hl there. elim (entry-cases l hl there) [
      | inl (_, e) ↦
          rw e (
            used_bytes after.bytes (new-IsUsed k n i z f mem page),
            new-ne k n i z f mem base t.used,
          )
      | inr (_, e, there_k) ↦ rw e (kept _ (t.second l hl there_k).0, (t.second l hl there_k).1)
    ];
    apart = λ l m hl hm ne there_l there_m. elim (entry-cases l hl there_l) [
      | inl (el, e) ↦ elim (entry-cases m hm there_m) [
        | inl (em, _) ↦ absurd (ne (el ∙ sym em))
        | inr (_, e', there_k) ↦ rw (e, e') (new-ne k n i z f mem _ (t.second m hm there_k).0)
      ]
      | inr (nl, e, there_k) ↦ elim (entry-cases m hm there_m) [
        | inl (_, e') ↦
            rw (e, e') (λ same. new-ne k n i z f mem _ (t.second l hl there_k).0 (sym same))
        | inr (_, e', there_m') ↦ rw (e, e') (t.apart l m hl hm ne there_k there_m')
      ]
    ];
  }

  -- A word of another page, behind the entry of the first table.
  away :
      (p b : ℕ)
      → p % page_size ≡ 0
      → base ≢ p
      → b < 1024
      → load32 after.bytes (p + 4 * b) ≡ load32 (with_page n i page k).bytes (p + 4 * b)
  away p b hp ne hb =
      load32-store32_apart (with_page n i page k).bytes (base + 4 * j) _ (p + 4 * b)
        (pages_apart base p j b t.aligned hp ne below hb)

  -- No address is mapped differently.
  entered-lookup : (w : ℕ) → lookup after.bytes base w ≡ lookup k.bytes base w
  entered-lookup w = elim (Bool-cases (first after.bytes base (pte_index1 w) == 0)) [
    | inl none_there ↦
        let e : first after.bytes base (pte_index1 w) ≡ 0 = (==_iff _ 0).0 none_there in
        lookup_none after.bytes base w e
        ∙ sym (
            lookup_none k.bytes base w (elim (Bool-cases (pte_index1 w == j)) [
              | inl same ↦ rw ((==_iff (pte_index1 w) j).0 same) vacant
              | inr other ↦
                  sym (old_entries (pte_index1 w) (omega arith) (λ s. ground (arith, other, s))) ∙ e
            ]))
    | inr there ↦
        let there' : first after.bytes base (pte_index1 w) ≢ 0 = λ e. ground (arith, there, e) in
        lookup_there after.bytes base w there'
        ∙ elim (entry-cases (pte_index1 w) (omega arith) there') [
          | inl (same, e) ↦
              ap (λ q. load32 after.bytes (q + 4 * pte_index0 w)) e
              ∙ away page (pte_index0 w) aligned (λ s. new-ne k n i z f mem base t.used (sym s))
                  (omega arith)
              ∙ new-zero k n i z f mem page (pte_index0 w) (omega arith)
              ∙ sym (lookup_none k.bytes base w (rw same vacant))
          | inr (ne, e, there_k) ↦
              let r = t.second (pte_index1 w) (omega arith) there_k in
              let p : ℕ = pte_paddr (first k.bytes base (pte_index1 w)) in
              ap (λ q. load32 after.bytes (pte_paddr q + 4 * pte_index0 w)) e
              ∙ away p (pte_index0 w) (pte_paddr-aligned _) (λ s. r.1 (sym s)) (omega arith)
              ∙ old-bytes k n i z f mem p page (pte_index0 w) (pte_paddr-aligned _) aligned
                  (new-ne k n i z f mem p r.0) (omega arith)
              ∙ sym (lookup_there k.bytes base w there_k)
        ]
  ]

-- What `have_table` does where a table may be made.
pub record IsReady (k k' : Kernel) (base j : ℕ) : Type 0 where
  pub table : IsTable k' base
  pub there : first k'.bytes base j ≢ 0
  pub same : (w : ℕ) → lookup k'.bytes base w ≡ lookup k.bytes base w
  pub unchanged : first k.bytes base j ≢ 0 → k' ≡ k

pub have_table_lem :
    (k : Kernel) (base j : ℕ)
    → IsMemory k
    → IsTable k base
    → j < 1024
    → ((have_table (base + 4 * j) true k ≡ done (err no_memory) k)
        × (first k.bytes base j ≡ 0)
        × NoFreePage k)
      ⊎ ((k' : Kernel) × (have_table (base + 4 * j) true k ≡ done (ok tt) k') × IsReady k k' base j)
unfolding have_table
have_table_lem k base j mem t below = elim (Bool-cases (first k.bytes base j == 0)) [
  | inr there ↦ inr (
    k,
    rw there refl,
    record {
      table = t;
      there = λ e. ground (arith, there, e);
      same = λ w. refl;
      unchanged = λ _. refl;
    },
  )
  | inl none_there ↦
      let vacant = (==_iff (first k.bytes base j) 0).0 none_there in
      elim (page_alloc k) [
        | inl (full, nothing) ↦ inl (rw (none_there, full) refl, vacant, nothing)
        | inr (n, i, z, f, e) ↦
            let new = new-aligned k n i z f mem in
            let positive : (paddr_of z i == 0) ≡ false = ground (arith, new.1) in
            let even : (paddr_of z i % 1024 == 0) ≡ true = ground (arith, new.0) in
            inr (
              entered base j n i (paddr_of z i) k,
              rw (none_there, e, positive, even) refl,
              record {
                table = entered-IsTable k base j n i z f mem t below vacant;
                there = λ zero_entry.
                    absurd (
                      omega (arith, first-entered k base j n i z f mem t below vacant, zero_entry));
                same = entered-lookup k base j n i z f mem t below vacant;
                unchanged = λ old. absurd (old vacant);
              },
            )
      ]
]
