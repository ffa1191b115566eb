-- ===== src/Build/Tests.antt =====
-- The parts of a table of 1000 tuples on 7 hardware threads.
use ccbench.Common.{ℕ, ◌≤◌, ◌<◌, ◌≡◌, refl, some, arith}
use ccbench.Build.{search_divisor, decide_parallel_build_number, part_start, part_end}
use ccbench.Build.Parts.{parts_cover}

decide_1000 : decide_parallel_build_number 7 1000 ≡ some 5
unfolding decide_parallel_build_number search_divisor
decide_1000 = refl

parts_cover_example :
    (m : ℕ) × (decide_parallel_build_number 7 1000 ≡ some m)
    × (1 ≤ m)
    × (m ≤ 7)
    × ((key : ℕ)
        → key < 1000
        → (i : ℕ) × (i < m) × (part_start 1000 m i ≤ key) × (key ≤ part_end 1000 m i))
parts_cover_example = parts_cover 7 1000 (omega arith) (omega arith)
