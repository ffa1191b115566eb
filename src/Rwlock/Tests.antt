-- ===== src/Rwlock/Tests.antt =====
-- The theorems about include/rwlock.hh at concrete runs.
use ccbench.Common.{ℕ, ◌≤◌, ◌≡◌, refl, ◌⊎◌, true, arith}
use ccbench.Common.Int.{ℤ, pos, minus_one}
use ccbench.Common.Family.{sum_of}
use ccbench.Rwlock.{RwLock, init, again, done, r_lock, w_lock, r_trylock, w_trylock, upgrade}
use ccbench.Rwlock.System.{
  by_r_lock, by_r_trylock, by_w_trylock, by_upgrade, raising, call, turn, call_raise, turn_raise,
  System, pick, Reach, here, next,
}
use ccbench.Rwlock.Invariant.{reads, writes}
use ccbench.Rwlock.Safety.{mutual_exclusion, counter_meaning, upgrade_deadlock, free_lock_taken}

-- Thread 0 takes the write lock while thread 1 asks for a read lock.
record Run (n : ℕ) : Type 0 where
  last : System
  open last use *
  reach : Reach n last

one_writer : Run 2
unfolding init w_trylock r_lock
one_writer = record {
  last = _;
  reach =
      next
        (next
          (next (next here (pick 0 (omega arith) (call by_w_trylock)))
            (pick 0 (omega arith) (turn by_w_trylock)))
          (pick 1 (omega arith) (call by_r_lock)))
        (pick 1 (omega arith) (turn by_r_lock));
}

mutual_exclusion_example : ◌≡◌ {A = ℕ} 0 0
unfolding one_writer
mutual_exclusion_example =
    mutual_exclusion one_writer.reach 0 0 (omega arith) (omega arith) refl (omega arith)

counter_meaning_example :
    ((sum_of writes 2 one_writer.pc ≡ 1)
      × (sum_of reads 2 one_writer.pc ≡ 0)
      × (one_writer.lock.counter ≡ minus_one))
    ⊎ ((sum_of writes 2 one_writer.pc ≡ 0)
        × (one_writer.lock.counter ≡ pos (sum_of reads 2 one_writer.pc))
        × (sum_of reads 2 one_writer.pc ≤ 2))
counter_meaning_example = counter_meaning one_writer.reach

-- Both threads read, and both call `upgrade()`.
two_upgrades : Run 2
unfolding init r_trylock
two_upgrades = record {
  last = _;
  reach =
      next
        (next
          (next
            (next
              (next (next here (pick 0 (omega arith) (call by_r_trylock)))
                (pick 0 (omega arith) (turn by_r_trylock)))
              (pick 1 (omega arith) (call by_r_trylock)))
            (pick 1 (omega arith) (turn by_r_trylock)))
          (pick 0 (omega arith) (call_raise by_upgrade)))
        (pick 1 (omega arith) (call_raise by_upgrade));
}

upgrade_deadlock_example :
    ((d : ℤ) × (raising by_upgrade (pos 2) ≡ raising by_upgrade d))
    × ((e : ℤ) × (raising by_upgrade (pos 2) ≡ raising by_upgrade e))
unfolding two_upgrades upgrade
upgrade_deadlock_example =
    upgrade_deadlock two_upgrades.reach 0 1 (omega arith) (omega arith) (omega arith) refl refl
      (pick 0 (omega arith) (turn_raise by_upgrade))

abbrev unlocked : RwLock
unlocked = record { counter = pos 0 }

free_lock_taken_example :
    (((r_lock unlocked (pos 3)).outcome ≡ done true)
        × ((r_lock unlocked (pos 3)).lock.counter ≡ pos 1)
      ⊎ (((r_lock unlocked (pos 3)).outcome ≡ again (pos 0))
          × ((r_lock unlocked (pos 3)).lock ≡ unlocked)
          × ((r_lock unlocked (pos 0)).outcome ≡ done true)
          × ((r_lock unlocked (pos 0)).lock.counter ≡ pos 1)))
    × (((w_lock unlocked (pos 3)).outcome ≡ done true)
          × ((w_lock unlocked (pos 3)).lock.counter ≡ minus_one)
        ⊎ (((w_lock unlocked (pos 3)).outcome ≡ again (pos 0))
            × ((w_lock unlocked (pos 3)).lock ≡ unlocked)
            × ((w_lock unlocked (pos 0)).outcome ≡ done true)
            × ((w_lock unlocked (pos 0)).lock.counter ≡ minus_one)))
free_lock_taken_example = free_lock_taken unlocked (pos 3) refl
