-- ===== src/Hinavm/Labels.antt =====
-- kernel/hinavm.c: how the labels are resolved.
use microkernel_book.Base.{
  ℕ, zero, suc, ◌+◌, ◌≤◌, ◌<◌, ◌≡◌, ◌∙◌, ◌⊎◌, inl, inr, refl, sym, arith, Bool-cases, ◌==◌, ==_iff,
}
use microkernel_book.Hinavm.Inst.{Inst, labeldef, decode}
use microkernel_book.Hinavm.Machine.{
  Hinavm, define_as, define_label, resolve_loop, resolve_labels, invalid_label,
}

-- Instruction `i` is the label `l`.
abbrev pub Defines : Hinavm → ℕ → ℕ → Type 0
Defines h i l = decode (h.insts i) ≡ labeldef l

-- No instruction from `lo` up to, not including, `hi` is the label.
abbrev pub NoLabel : Hinavm → ℕ → ℕ → ℕ → Type 0
NoLabel h l lo hi = (i : ℕ) → lo ≤ i → i < hi → ¬ Defines h i l

define_as_lem :
    (inst : Inst) (i : ℕ) (labels : ℕ → ℕ) (l : ℕ)
    → ((inst ≡ labeldef l) × (define_as inst i labels l ≡ i + 1))
      ⊎ ((¬ (inst ≡ labeldef l)) × (define_as inst i labels l ≡ labels l))
unfolding define_as
define_as_lem (labeldef x) i labels l = ground arith
define_as_lem _ i labels l = inr (λ e. cc, refl)

-- What the loop that visits the instructions from `lo` to `hi` makes of the value `old` of a label.
abbrev Found : Hinavm → ℕ → ℕ → ℕ → ℕ → Type 0
Found h l lo hi v =
    (j : ℕ) × (lo ≤ j) × (j < hi) × (v ≡ j + 1) × Defines h j l × NoLabel h l (j + 1) hi

extend_none :
    (h : Hinavm) (l i hi : ℕ) → ¬ Defines h i l → NoLabel h l (i + 1) hi → NoLabel h l i hi
extend_none h l i hi absent none j lo h' d = elim (Bool-cases (j == i)) [
  | inl same ↦ absent (rw (sym ((==_iff j i).0 same)) d)
  | inr other ↦ none j (ground arith) h' d
]

resolve_loop_lem :
    (rounds : ℕ) (h : Hinavm) (i hi : ℕ) (labels : ℕ → ℕ) (l : ℕ)
    → i + rounds ≡ hi
    → Found h l i hi (resolve_loop h rounds i labels l)
      ⊎ ((resolve_loop h rounds i labels l ≡ labels l) × NoLabel h l i hi)
unfolding resolve_loop define_label
resolve_loop_lem zero h i hi labels l e = inr (refl, λ j lo h'. absurd (omega arith))
resolve_loop_lem (suc rounds) h i hi labels l e =
    elim (resolve_loop_lem rounds h (i + 1) hi (define_label h i labels) l (omega arith)) [
      | inl (j, lo, up, v, d, none) ↦ inl (j, omega arith, up, v, d, none)
      | inr (v, none) ↦ elim (define_as_lem (decode (h.insts i)) i labels l) [
        | inl (d, w) ↦ inl (i, omega arith, omega arith, v ∙ w, d, none)
        | inr (absent, w) ↦ inr (v ∙ w, extend_none h l i hi absent none)
      ]
    ]

-- A resolved label stands for the place behind the last instruction that defines it, or is invalid
-- if none does.
pub resolve_labels_lem :
    (h : Hinavm) (l : ℕ)
    → ((i : ℕ) × (i < h.num_insts)
        × (resolve_labels h l ≡ i + 1)
        × Defines h i l
        × NoLabel h l (i + 1) h.num_insts)
      ⊎ ((resolve_labels h l ≡ invalid_label) × NoLabel h l 0 h.num_insts)
unfolding resolve_labels
resolve_labels_lem h l =
    elim (resolve_loop_lem h.num_insts h 0 h.num_insts (λ l. invalid_label) l (omega arith)) [
      | inl (i, _, up, v, d, none) ↦ inl (i, up, v, d, none)
      | inr found_none ↦ inr found_none
    ]
