-- ===== src/Build.antt =====
-- common/util.cc and the makeDB of the protocols: the parts of the table that threads build at once.
use ccbench.Common.{
  ℕ, zero, suc, ◌+◌, ◌-◌, ◌*◌, ◌/◌, ◌%◌, ltb, ◌==◌, if◌then◌else◌, Option, none, some,
}
pub mod Parts
pub mod Tests

-- The loop of `decideParallelBuildNumber` from `i` down; `none` is the exit by `ERR`.
unfoldable pub search_divisor : ℕ → ℕ → Option ℕ
search_divisor zero tuple_num = some 0
search_divisor (suc i) tuple_num =
    let rest = search_divisor i tuple_num in
    if tuple_num % suc i == 0 then some (suc i) else if suc i == 1 then none else rest

-- `hardware_concurrency` is what `std::thread::hardware_concurrency()` returns: it may be 0.
unfoldable pub decide_parallel_build_number : (hardware_concurrency tuple_num : ℕ) → Option ℕ
unfolding search_divisor
decide_parallel_build_number hardware_concurrency tuple_num =
    if ltb tuple_num 1000 then some 1 else search_divisor hardware_concurrency tuple_num

-- What `makeDB` hands to thread `i` of `maxthread`: the first key of its part, and the last.
unfoldable pub part_start : (tuple_num maxthread i : ℕ) → ℕ
part_start tuple_num maxthread i = i * (tuple_num / maxthread)

unfoldable pub part_end : (tuple_num maxthread i : ℕ) → ℕ
part_end tuple_num maxthread i = (i + 1) * (tuple_num / maxthread) - 1
