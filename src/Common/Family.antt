-- ===== src/Common/Family.antt =====
-- Families indexed by a number (threads, tuples): assignment at one index, and sums of weights.
use Prim.Native.Nat.{ℕ, zero, suc, ◌+◌, ◌≤◌, ◌<◌}
use mathlib.Core.Path.{◌≡◌, refl, subst}
use mathlib.Core.Bool.{false}
use mathlib.Core.Logic.{◌≢◌, ◌⊎◌, inl, inr}
use native.Mathlib.Decide.{dec_lt}
use native.Mathlib.Omega.{arith}
use ccbench.Common.Tests.{◌==◌, ==_iff, if◌then◌else◌, Bool-cases}

-- `a[i] = v`
abbrev pub assign {ℓ} : {A : Type ℓ} → (ℕ → A) → ℕ → A → ℕ → A
assign f i v j = if i == j then v else f j

-- What holds of the member that is assigned, and of each other, holds of all afterwards.
pub at_key {ℓ κ} :
    {A : Type ℓ} (P : ℕ → A → Type κ) (f : ℕ → A) (i : ℕ) (v : A) (j : ℕ)
    → P i v
    → ((i == j) ≡ false → P j (f j))
    → P j (assign f i v j)
at_key P f i v j own others = elim (Bool-cases (i == j)) [
  | inl here ↦ rw here (subst (λ (x : ℕ). P x v) ((==_iff i j).0 here) own)
  | inr other ↦ rw other (others other)
]

-- The same for a property that does not depend on the index.
pub at_each {ℓ κ} :
    {A : Type ℓ} (P : A → Type κ) (f : ℕ → A) (i : ℕ) (v : A) (j : ℕ)
    → P v
    → ((i == j) ≡ false → P (f j))
    → P (assign f i v j)
at_each P f = at_key (λ j. P) f

module _ {ℓ} {A : Type ℓ} (w : A → ℕ) where
  -- The weights of the members below `n`, added up.
  pub sum_of : ℕ → (ℕ → A) → ℕ
  sum_of zero f = 0
  sum_of (suc n) f = w (f n) + sum_of n f

  sum_of-assign_above :
      (n : ℕ) (f : ℕ → A) (i : ℕ) (v : A) → n ≤ i → sum_of n (assign f i v) ≡ sum_of n f
  unfolding sum_of
  sum_of-assign_above zero f i v h = refl
  sum_of-assign_above (suc n) f i v h = ground (arith, sum_of-assign_above n f i v)

  -- An assignment changes the sum by the difference of the two weights.
  pub sum_of-assign :
      (n : ℕ) (f : ℕ → A) (i : ℕ) (v : A)
      → i < n
      → sum_of n (assign f i v) + w (f i) ≡ sum_of n f + w v
  unfolding sum_of
  sum_of-assign zero f i v h = absurd (omega arith)
  sum_of-assign (suc n) f i v h = elim (Bool-cases (i == n)) [
    | inl last ↦ ground (arith, sum_of-assign_above n f i v)
    | inr before ↦ ground (arith, sum_of-assign n f i v)
  ]

  pub sum_of-two : (f : ℕ → A) → sum_of 2 f ≡ w (f 0) + w (f 1)
  unfolding sum_of
  sum_of-two f = omega arith

  pub le-sum_of : (n : ℕ) (f : ℕ → A) (i : ℕ) → i < n → w (f i) ≤ sum_of n f
  unfolding sum_of
  le-sum_of zero f i h = absurd (omega arith)
  le-sum_of (suc n) f i h = elim (Bool-cases (i == n)) [
    | inl last ↦ ground arith
    | inr before ↦ ground (arith, le-sum_of n f i)
  ]

  pub pair-le-sum_of :
      (n : ℕ) (f : ℕ → A) (i j : ℕ) → i < n → j < n → i ≢ j → w (f i) + w (f j) ≤ sum_of n f
  unfolding sum_of
  pair-le-sum_of zero f i j hi hj ne = absurd (omega arith)
  pair-le-sum_of (suc n) f i j hi hj ne =
      ground (arith, pair-le-sum_of n f i j, le-sum_of n f i, le-sum_of n f j)

  pub sum_of-eq-zero : (n : ℕ) (f : ℕ → A) → ((i : ℕ) → i < n → w (f i) ≡ 0) → sum_of n f ≡ 0
  unfolding sum_of
  sum_of-eq-zero zero f h = refl
  sum_of-eq-zero (suc n) f h =
      omega (arith, h n (omega arith), sum_of-eq-zero n f (λ i lt. h i (omega arith)))

  pub sum_of-le : ((a : A) → w a ≤ 1) → (n : ℕ) (f : ℕ → A) → sum_of n f ≤ n
  unfolding sum_of
  sum_of-le small zero f = omega arith
  sum_of-le small (suc n) f = omega (arith, small (f n), sum_of-le small n f)

  -- Whether some member below `n` has a weight.
  pub any_positive :
      (n : ℕ) (f : ℕ → A) → ((j : ℕ) → j < n → w (f j) ≡ 0) ⊎ ((j : ℕ) × (j < n) × (1 ≤ w (f j)))
  any_positive zero f = inl (λ j h. absurd (omega arith))
  any_positive (suc n) f = elim (dec_lt 0 (w (f n))) [
    | yes h ↦ inr (n, omega arith, h)
    | no z ↦ elim (any_positive n f) [
      | inl none_below ↦ inl (λ j h. elim (dec_lt j n) [
        | yes below ↦ none_below j below
        | no last ↦ let e : n ≡ j = omega arith in subst (λ (x : ℕ). w (f x) ≡ 0) e (omega arith)
      ])
      | inr (j, lt, h) ↦ inr (j, omega arith, h)
    ]
  ]
