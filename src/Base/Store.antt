-- ===== src/Base/Store.antt =====
-- Stores: total functions from addresses to values, and the write at one address.
use Prim.Native.Nat.{ℕ}
use mathlib.Core.Path.{◌≡◌, refl}
use mathlib.Core.Logic.{◌≢◌, ◌⊎◌, inl, inr}
use native.Mathlib.Omega.{arith}
use microkernel_book.Base.Tests.{◌==◌, Bool-cases, if◌then◌else◌}

module _ {ℓ} {A : Type ℓ} where
  abbrev pub update : (ℕ → A) → ℕ → A → ℕ → A
  update f p v q = if q == p then v else f q

  pub update_self : (f : ℕ → A) (p : ℕ) (v : A) → update f p v p ≡ v
  update_self f p v = ground arith

  pub update_ne : (f : ℕ → A) (p q : ℕ) (v : A) → q ≢ p → update f p v q ≡ f q
  update_ne f p q v h = ground arith

  pub update-cases :
      (f : ℕ → A) (p : ℕ) (v : A) (q : ℕ)
      → ((q ≡ p) × (update f p v q ≡ v)) ⊎ ((q ≢ p) × (update f p v q ≡ f q))
  update-cases f p v q = elim (Bool-cases (q == p)) [
    | inl same ↦ inl (ground (arith, same), rw same refl)
    | inr other ↦ inr ((λ e. ground (arith, other, e)), rw other refl)
  ]
