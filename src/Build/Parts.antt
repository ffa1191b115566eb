-- ===== src/Build/Parts.antt =====
-- The parts of the table that common/util.cc chooses.
use ccbench.Common.{
  ℕ, zero, suc, ◌+◌, ◌*◌, ◌/◌, ◌%◌, ◌≤◌, ◌<◌, ◌≡◌, refl, ap, ◌∙◌, ltb, ◌==◌, some, arith,
  Bool-cases, inl, inr,
}
use native.Mathlib.Nat.{
  mod-one, mod-lt, mul_comm, suc-mul, div-add-mod, div-add-mod', lt_of_mul-lt-mul_left,
}
use ccbench.Build.{search_divisor, decide_parallel_build_number, part_start, part_end}

search_divisor_lem :
    (i tuple_num : ℕ)
    → 1 ≤ i
    → (m : ℕ) × (search_divisor i tuple_num ≡ some m) × (1 ≤ m) × (m ≤ i) × (tuple_num % m ≡ 0)
unfolding search_divisor
search_divisor_lem zero tuple_num h = absurd (omega arith)
search_divisor_lem (suc i) tuple_num h = elim (Bool-cases (tuple_num % suc i == 0)) [
  | inl divides ↦ (suc i, rw divides refl, omega arith, omega arith, ground arith)
  | inr other ↦ elim (Bool-cases (suc i == 1)) [
    | inl last ↦ absurd (ground (arith, other, last, at_one))
    | inr above ↦
        let (m, e, l, u, d) = search_divisor_lem i tuple_num (ground (arith, above)) in
        (m, rw other (rw above e), l, omega arith, d)
  ]
]
  where
    at_one : suc i ≡ 1 → tuple_num % suc i ≡ 0
    at_one e = ap (λ (j : ℕ). tuple_num % j) e ∙ mod-one tuple_num

decide_divides :
    (hardware_concurrency tuple_num : ℕ)
    → 1 ≤ hardware_concurrency
    → (m : ℕ) × (decide_parallel_build_number hardware_concurrency tuple_num ≡ some m)
      × (1 ≤ m)
      × (m ≤ hardware_concurrency)
      × (tuple_num % m ≡ 0)
unfolding decide_parallel_build_number
decide_divides h n pos = elim (Bool-cases (ltb n 1000)) [
  | inl small ↦ (1, rw small refl, omega arith, pos, mod-one n)
  | inr large ↦ let (m, e, l, u, d) = search_divisor_lem h n pos in (m, rw large e, l, u, d)
]

-- With at least one hardware thread and at least one tuple, `decideParallelBuildNumber` returns a
-- number of threads, at least 1 and at most that of the hardware, and each key of the table is in the
-- part of one of these threads.
pub parts_cover :
    (hardware_concurrency tuple_num : ℕ)
    → 1 ≤ hardware_concurrency
    → 1 ≤ tuple_num
    → (m : ℕ) × (decide_parallel_build_number hardware_concurrency tuple_num ≡ some m)
      × (1 ≤ m)
      × (m ≤ hardware_concurrency)
      × ((key : ℕ)
          → key < tuple_num
          → (i : ℕ) × (i < m) × (part_start tuple_num m i ≤ key) × (key ≤ part_end tuple_num m i))
unfolding part_start part_end
parts_cover h n hp np =
    let (m, e, l, u, d) = decide_divides h n hp in (m, e, l, u, λ key lt. cover m d key lt)
  where
    cover :
        (m : ℕ)
        → n % m ≡ 0
        → (key : ℕ) → key < n
        → (i : ℕ) × (i < m) × (part_start n m i ≤ key) × (key ≤ part_end n m i)
    cover m d key lt = (
      key / c,
      lt_of_mul-lt-mul_left c below,
      omega (arith, mul_comm (key / c) c, within),
      omega (arith, suc-mul (key / c) c, mul_comm (key / c) c, within),
    )
      where
        c : ℕ
        c = n / m

        whole : c * m ≡ n
        whole = omega (arith, div-add-mod' n m, d)

        positive : (b : ℕ) → b * m ≡ n → zero < b
        positive zero e = absurd (omega (arith, np, e))
        positive (suc b) e = omega arith

        nonzero : zero < c
        nonzero = positive c whole

        within : (c * (key / c) + key % c ≡ key) × (key % c < c)
        within = (div-add-mod key c, mod-lt key nonzero)

        below : c * (key / c) < c * m
        below = omega (arith, within, whole)
