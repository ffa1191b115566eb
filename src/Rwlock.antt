-- ===== src/Rwlock.antt =====
-- include/rwlock.hh: the reader-writer lock `RWLock`, one `int` that every operation changes by a
-- compare-and-swap or an atomic increment. Each function is one turn of the `for (;;)` of its
-- method, from the value `expected` that the thread last saw; a turn makes at most one access.
pub mod Agreement
pub mod System
pub mod Invariant
pub mod Safety
mod Tests
use ccbench.Common.{Bool, true, false, if◌then◌else◌}
use ccbench.Common.Int.{ℤ, pos, minus_one, increment, decrement, ◌==ℤ◌}

-- -1: write locked; 0: not locked; above: the number of readers.
pub record RwLock : Type 0 where
  pub counter : ℤ

unfoldable pub init : RwLock
init = record { counter = pos 0 }

-- How a turn of a loop ends: `continue` with a new `expected`, or `return`.
pub data Outcome : Type 0 where
  again : (expected : ℤ) → Outcome
  done : (result : Bool) → Outcome

pub record Turn : Type 0 where
  pub lock : RwLock
  pub outcome : Outcome

-- `counter.load()` and the next turn.
abbrev reload : RwLock → Turn
reload l = record { lock = l; outcome = again l.counter }

abbrev return_with : Bool → RwLock → Turn
return_with b l = record { lock = l; outcome = done b }

-- `compare_exchange_strong`: a failure writes the counter's value to `expected`.
abbrev compare_exchange : RwLock → ℤ → ℤ → Turn
compare_exchange l expected desired =
    if l.counter ==ℤ expected
    then record { lock = record { counter = desired }; outcome = done true }
    else reload l

unfoldable pub r_lock : RwLock → ℤ → Turn
r_lock l expected =
    if expected ==ℤ minus_one then reload l else compare_exchange l expected (increment expected)

unfoldable pub r_trylock : RwLock → ℤ → Turn
r_trylock l expected =
    if expected ==ℤ minus_one
    then return_with false l
    else compare_exchange l expected (increment expected)

unfoldable pub r_unlock : RwLock → RwLock
r_unlock l = record { counter = decrement l.counter }

unfoldable pub w_lock : RwLock → ℤ → Turn
w_lock l expected = if expected ==ℤ pos 0 then compare_exchange l expected minus_one else reload l

unfoldable pub w_trylock : RwLock → ℤ → Turn
w_trylock l expected =
    if expected ==ℤ pos 0 then compare_exchange l expected minus_one else return_with false l

unfoldable pub w_unlock : RwLock → RwLock
w_unlock l = record { counter = increment l.counter }

unfoldable pub upgrade : RwLock → ℤ → Turn
upgrade l expected = if expected ==ℤ pos 1 then compare_exchange l expected minus_one else reload l

unfoldable pub tryupgrade : RwLock → ℤ → Turn
tryupgrade l expected =
    if expected ==ℤ pos 1 then compare_exchange l expected minus_one else return_with false l
