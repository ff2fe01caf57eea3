-- ===== src/Common/Family.antt =====
-- Threads as a family over their indices: the change of one, and the sum of a weight over all.
use Prim.Native.Nat.{ℕ, zero, suc, ◌+◌, ◌≤◌, ◌<◌}
use mathlib.Core.Path.{◌≡◌, refl}
use mathlib.Core.Logic.{inl, inr}
use native.Mathlib.Omega.{arith}
use agent_council.Common.Tests.{◌==◌, ltb, if◌then◌else◌, Bool-cases}

module _ {ℓ} {A : Type ℓ} where
  abbrev pub with_at : ℕ → A → (ℕ → A) → ℕ → A
  with_at i a f j = if i == j then a else f j

  module _ (weight : A → ℕ) where
    pub sum_over : ℕ → (ℕ → A) → ℕ
    sum_over zero f = 0
    sum_over (suc n) f = weight (f n) + sum_over n f

    sum_over-beyond :
        (n i : ℕ) (a : A) (f : ℕ → A) → n ≤ i → sum_over n (with_at i a f) ≡ sum_over n f
    unfolding sum_over
    sum_over-beyond zero i a f h = refl
    sum_over-beyond (suc n) i a f h = ground (arith, sum_over-beyond n i a f)

    -- A change of one thread changes the sum by that thread's weight.
    pub sum_over-with_at :
        (n i : ℕ) (a : A) (f : ℕ → A)
        → i < n
        → sum_over n (with_at i a f) + weight (f i) ≡ sum_over n f + weight a
    unfolding sum_over
    sum_over-with_at zero i a f h = absurd (omega arith)
    sum_over-with_at (suc n) i a f h = elim (Bool-cases (i == n)) [
      | inl last ↦ ground (arith, sum_over-beyond n i a f)
      | inr below ↦ ground (arith, sum_over-with_at n i a f)
    ]

    -- A thread is added after the last one.
    pub sum_over-add :
        (n : ℕ) (a : A) (f : ℕ → A) → sum_over (suc n) (with_at n a f) ≡ weight a + sum_over n f
    unfolding sum_over
    sum_over-add n a f = ground (arith, sum_over-beyond n n a f)

    pub weight-le-sum : (n i : ℕ) (f : ℕ → A) → i < n → weight (f i) ≤ sum_over n f
    unfolding sum_over
    weight-le-sum zero i f h = absurd (omega arith)
    weight-le-sum (suc n) i f h = elim (Bool-cases (i == n)) [
      | inl last ↦ ground arith
      | inr below ↦ ground (arith, weight-le-sum n i f)
    ]

    -- Where the sum is positive, some thread has a weight.
    pub weighted : (n : ℕ) (f : ℕ → A) → 0 < sum_over n f → (i : ℕ) × (i < n) × (0 < weight (f i))
    unfolding sum_over
    weighted zero f h = absurd (omega arith)
    weighted (suc n) f h = elim (Bool-cases (ltb 0 (weight (f n)))) [
      | inl here ↦ (n, omega arith, ground arith)
      | inr lower ↦
          let found = weighted n f (ground arith) in (found.0, omega (arith, found.1), found.2)
    ]

    pub sum_over-const : (n : ℕ) (f : ℕ → A) → ((i : ℕ) → weight (f i) ≡ 0) → sum_over n f ≡ 0
    unfolding sum_over
    sum_over-const zero f h = refl
    sum_over-const (suc n) f h = omega (arith, h n, sum_over-const n f h)
