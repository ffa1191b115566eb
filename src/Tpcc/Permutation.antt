-- ===== src/Tpcc/Permutation.antt =====
-- tpcc_silo/tpcc/tpcc_util.hpp: `random_int` and `Permutation`. The numbers that `random_64bits` returns are
-- a parameter, the `i`-th call's at `i`.
use ccbench.Common.{
  ℕ, zero, suc, ◌+◌, ◌-◌, ◌%◌, ◌^◌, ◌≤◌, ◌<◌, ◌≡◌, refl, ap, ◌∙◌, ◌==◌, leb, ltb, ◌&&◌,
  if◌then◌else◌, if_cases, Bool-cases, inl, inr, Option, none, some, arith,
}
use native.Mathlib.Nat.{mod-lt}
use ccbench.Common.Family.{assign}

-- Subtraction of `std::size_t`.
unfoldable pub minus : ℕ → ℕ → ℕ
minus a b = (a + 2 ^ 64 - b) % 2 ^ 64

minus_lem : (a b : ℕ) → b ≤ a → a < 2 ^ 64 → minus a b ≡ a - b
unfolding minus
minus_lem a b le small = omega (arith, le, small)

-- `none` where an `assert` fails.
unfoldable pub random_int : (random_64bits : ℕ) → (min max : ℕ) → Option ℕ
random_int r min max =
    if leb min max && ltb max (2 ^ 64 - 1) then some (r % (max - min + 1) + min) else none

-- `std::swap` of two elements.
unfoldable pub swap : (ℕ → ℕ) → ℕ → ℕ → ℕ → ℕ
swap perm i j = assign (assign perm i (perm j)) j (perm i)

-- A round of the second loop, on `s` elements, with the number that was drawn.
unfoldable pub shuffle : (s i : ℕ) → (ℕ → ℕ) → Option ℕ → Option (ℕ → ℕ)
shuffle s i perm none = none
shuffle s i perm (some j) =
    if ltb (i + j) s then some (if j == 0 then perm else swap perm i (i + j)) else none

unfoldable pub rounds : (ℕ → ℕ) → (s todo i : ℕ) → Option (ℕ → ℕ) → Option (ℕ → ℕ)
rounds random s todo i none = none
rounds random s zero i (some perm) = some perm
rounds random s (suc todo) i (some perm) =
    rounds random s todo (suc i) (shuffle s i perm (random_int (random i) 0 (minus (minus s i) 1)))

-- `perm_.size()`.
unfoldable pub size : (min max : ℕ) → ℕ
unfolding minus
size min max = (minus max min + 1) % 2 ^ 64

-- The constructor: `perm_`, at the indices below its size.
unfoldable pub permutation : (ℕ → ℕ) → (min max : ℕ) → Option (ℕ → ℕ)
unfolding size minus
permutation random min max =
    if ltb min max && (minus (min + size min max) 1 == max)
    then rounds random (size min max) (minus (size min max) 1) 0 (some (λ i. min + i))
    else none

random_int-range :
    (r max : ℕ) → max < 2 ^ 64 - 1 → (j : ℕ) × (random_int r 0 max ≡ some j) × (j ≤ max)
unfolding random_int
random_int-range r max h =
    let small : r % (max - 0 + 1) < max - 0 + 1 = mod-lt r (omega arith) in
    (r % (max - 0 + 1) + 0, ground (arith, h), omega (arith, small))

-- Each of `s` numbers from `min` on, once.
pub record IsPermutation (min s : ℕ) (perm : ℕ → ℕ) : Type 0 where
  pub within : (i : ℕ) → i < s → (min ≤ perm i) × (perm i < min + s)
  pub distinct : (i j : ℕ) → i < s → j < s → perm i ≡ perm j → i ≡ j
  pub found : (v : ℕ) → min ≤ v → v < min + s → (i : ℕ) × (i < s) × (perm i ≡ v)

swap-IsPermutation :
    {min s : ℕ} {perm : ℕ → ℕ} (a b : ℕ)
    → a < s
    → b < s
    → IsPermutation min s perm
    → IsPermutation min s (swap perm a b)
unfolding swap
swap-IsPermutation {min} {s} {perm} a b ha hb h = record {
  within = λ i lt. ground (arith, h.within i lt, h.within a ha, h.within b hb);
  distinct = λ i j hi hj e. ground (
    arith,
    e,
    h.distinct i j hi hj,
    h.distinct a i ha hi,
    h.distinct b i hb hi,
    h.distinct a j ha hj,
    h.distinct b j hb hj,
  );
  found = λ v lo hi.
      let (x, lt, e) = h.found v lo hi in
      elim (Bool-cases (x == a)) [
        | inl first ↦ (b, hb, ground (arith, first, e))
        | inr other ↦ elim (Bool-cases (x == b)) [
          | inl second ↦ (a, ha, ground (arith, second, e))
          | inr neither ↦ (x, lt, ground (arith, other, neither, e))
        ]
      ];
}

shuffle-IsPermutation :
    {min s : ℕ} (i j : ℕ) {perm : ℕ → ℕ}
    → i + j < s
    → IsPermutation min s perm
    → (perm' : ℕ → ℕ) × (shuffle s i perm (some j) ≡ some perm') × IsPermutation min s perm'
unfolding shuffle
shuffle-IsPermutation {min} {s} i j {perm} lt h = (
  if j == 0 then perm else swap perm i (i + j),
  ground (arith, lt),
  if_cases (IsPermutation min s) (j == 0) perm (swap perm i (i + j)) (λ e. h)
      (λ e. swap-IsPermutation i (i + j) (omega (arith, lt)) lt h),
)

round-IsPermutation :
    (random : ℕ → ℕ) {min s : ℕ} (i : ℕ) {perm : ℕ → ℕ}
    → s < 2 ^ 64
    → i < s
    → IsPermutation min s perm
    → (perm' : ℕ → ℕ) × (shuffle s i perm (random_int (random i) 0 (minus (minus s i) 1))
        ≡ some perm')
      × IsPermutation min s perm'
round-IsPermutation random {s = s} i {perm = perm} small lt h =
    let left : minus (minus s i) 1 ≡ s - i - 1 =
      minus_lem (minus s i) 1 (omega (arith, minus_lem s i, lt, small))
        (omega (arith, minus_lem s i, lt, small))
      ∙ omega (arith, minus_lem s i, lt, small) in
    let (j, drawn, le) =
      random_int-range (random i) (minus (minus s i) 1) (omega (arith, small, left)) in
    let (p, shuffled, h') = shuffle-IsPermutation i j (omega (arith, le, left, lt)) h in
    (p, ap (shuffle s i perm) drawn ∙ shuffled, h')

rounds-IsPermutation :
    (random : ℕ → ℕ) {min s : ℕ} (todo i : ℕ) {perm : ℕ → ℕ}
    → s < 2 ^ 64
    → i + todo < s
    → IsPermutation min s perm
    → (perm' : ℕ → ℕ) × (rounds random s todo i (some perm) ≡ some perm')
      × IsPermutation min s perm'
unfolding rounds
rounds-IsPermutation random zero i {perm = perm} small lt h = (perm, refl, h)
rounds-IsPermutation random {s = s} (suc todo) i small lt h =
    let (p, e, h') = round-IsPermutation random i small (omega (arith, lt)) h in
    let (p', done, h'') = rounds-IsPermutation random todo (suc i) small (omega (arith, lt)) h' in
    (p', ap (rounds random s todo (suc i)) e ∙ done, h'')

-- The second assert of the constructor.
minus_end : (min max s : ℕ) → min + s ≡ max + 1 → max < 2 ^ 64 → minus (min + s) 1 ≡ max
unfolding minus
minus_end min max s e small = omega (arith, e, small)

-- Whatever the random numbers are, for `min < max` in 64 bits the constructor of `Permutation` passes
-- its asserts and ends, unless the range is that of all 64-bit numbers: its array has an index for
-- each number of [min, max] and holds at these indices numbers of [min, max] only, each of them once.
pub permutation-IsPermutation :
    (random : ℕ → ℕ) (min max : ℕ)
    → min < max
    → max < 2 ^ 64
    → max - min < 2 ^ 64 - 1
    → (perm : ℕ → ℕ) × (permutation random min max ≡ some perm)
      × (size min max ≡ max - min + 1)
      × IsPermutation min (size min max) perm
unfolding permutation size
permutation-IsPermutation random min max lt small part =
    let all : size min max ≡ max - min + 1 = omega (arith, minus_lem max min, lt, small, part) in
    let rest : minus (size min max) 1 ≡ max - min =
      minus_lem (size min max) 1 (omega (arith, all)) (omega (arith, all, part))
      ∙ omega (arith, all) in
    let last : minus (min + size min max) 1 ≡ max =
      minus_end min max (size min max) (omega (arith, all, lt)) small in
    let (perm, done, h) =
      rounds-IsPermutation random {min = min} {s = size min max} (minus (size min max) 1) 0
        {perm = λ i. min + i} (omega (arith, all, part)) (omega (arith, all, rest))
        (record {
          within = λ i lt. (omega arith, omega (arith, lt));
          distinct = λ i j hi hj e. omega (arith, e);
          found = λ v lo hi. (v - min, omega (arith, lo, hi), omega (arith, lo));
        }) in
    (perm, ground (arith, lt, last) ∙ done, all, h)
