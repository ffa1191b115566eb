-- ===== src/Rwlock/Safety.antt =====
-- What the lock of include/rwlock.hh promises, in every reachable state and for every call.
use ccbench.Common.{ℕ, ◌+◌, ◌≤◌, ◌<◌, ◌≡◌, ◌≢◌, ◌⊎◌, inl, inr, true, arith, Bool-cases, ◌==◌}
use ccbench.Common.Int.{ℤ, pos, minus_one}
use native.Mathlib.Decide.{ℕ_discrete}
use ccbench.Common.Family.{assign, sum_of, sum_of-le, le-sum_of, pair-le-sum_of}
use ccbench.Rwlock.{RwLock, again, done, r_lock, w_lock, upgrade}
use ccbench.Rwlock.System.{
  by_upgrade, Pc, idle, raising, writing, Move, call, turn_raise, System, Step, pick, Reach,
}
use ccbench.Rwlock.Invariant.{reads, writes, Reach-IsSound}

-- In every state that `n` threads reach in any interleaving, a thread that holds the write lock is
-- the only one that holds the lock at all, for reading or for writing.
pub mutual_exclusion :
    {n : ℕ} {s : System}
    → Reach n s
    → (i j : ℕ) → i < n
    → j < n
    → s.pc i ≡ writing
    → 1 ≤ reads (s.pc j) + writes (s.pc j)
    → i ≡ j
mutual_exclusion {n} {s} r i j hi hj w h = elim (ℕ_discrete i j) [
  | yes e ↦ e
  | no ne ↦ absurd (
      ground (
        arith,
        Reach-IsSound r,
        pair-le-sum_of writes n s.pc i j hi hj ne,
        le-sum_of reads n s.pc j hj,
        le-sum_of writes n s.pc i hi,
      ))
]

reads-le : (p : Pc) → reads p ≤ 1
reads-le idle = omega arith
reads-le _ = omega arith

-- In every reachable state of `n` threads the counter is -1 while one thread writes and none reads;
-- otherwise no thread writes, and it is the number of the threads that read, at most `n`.
pub counter_meaning :
    {n : ℕ} {s : System}
    → Reach n s
    → ((sum_of writes n s.pc ≡ 1) × (sum_of reads n s.pc ≡ 0) × (s.lock.counter ≡ minus_one))
      ⊎ ((sum_of writes n s.pc ≡ 0)
          × (s.lock.counter ≡ pos (sum_of reads n s.pc))
          × (sum_of reads n s.pc ≤ n))
counter_meaning {n} {s} r = ground (arith, Reach-IsSound r, sum_of-le reads reads-le n s.pc)

-- With two readers or more, a turn of `upgrade()` ends in another turn.
upgrade-again :
    {l l' : RwLock} {p p' : Pc} {d : ℤ} {k : ℕ}
    → Move l p l' p'
    → p ≡ raising by_upgrade d
    → l.counter ≡ pos k
    → 2 ≤ k
    → (d' : ℤ) × (p' ≡ raising by_upgrade d')
unfolding upgrade
upgrade-again (call a) e c h = cc
upgrade-again {l} (turn_raise by_upgrade {e = x}) e c h = (l.counter, ground arith)
upgrade-again mv e c h = cc

-- If two threads are both inside `upgrade()` in a reachable state, then each step of any thread
-- leaves both inside `upgrade()`: neither call ever returns.
pub upgrade_deadlock :
    {n : ℕ} {s t : System} {d e : ℤ}
    → Reach n s
    → (i j : ℕ) → i < n
    → j < n
    → i ≢ j
    → s.pc i ≡ raising by_upgrade d
    → s.pc j ≡ raising by_upgrade e
    → Step n s t
    → ((d' : ℤ) × (t.pc i ≡ raising by_upgrade d')) × ((e' : ℤ) × (t.pc j ≡ raising by_upgrade e'))
upgrade_deadlock {n} {s} {d = d} {e = e} r i j hi hj ne pi pj (pick k {p = p} lt mv) = (left, right)
  where
    readers : 2 ≤ sum_of reads n s.pc
    readers = ground (arith, pair-le-sum_of reads n s.pc i j hi hj ne)

    counter : s.lock.counter ≡ pos (sum_of reads n s.pc)
    counter = ground (arith, Reach-IsSound r, readers)

    left : (d' : ℤ) × (assign s.pc k p i ≡ raising by_upgrade d')
    left = elim (Bool-cases (k == i)) [
      | inl same ↦
          let (d', moved) = upgrade-again {d = d} mv (ground arith) counter readers in
          (d', ground arith)
      | inr other ↦ (d, ground arith)
    ]

    right : (e' : ℤ) × (assign s.pc k p j ≡ raising by_upgrade e')
    right = elim (Bool-cases (k == j)) [
      | inl same ↦
          let (e', moved) = upgrade-again {d = e} mv (ground arith) counter readers in
          (e', ground arith)
      | inr other ↦ (e, ground arith)
    ]

-- On a lock that nobody holds, with no interference, `r_lock()` and `w_lock()` return in their second
-- turn at the latest, whatever `expected` they start from, and a first turn that does not return
-- leaves the lock alone. The counter is 1 then after `r_lock()`, and -1 after `w_lock()`.
pub free_lock_taken :
    (l : RwLock) (e : ℤ)
    → l.counter ≡ pos 0
    → (((r_lock l e).outcome ≡ done true) × ((r_lock l e).lock.counter ≡ pos 1)
        ⊎ (((r_lock l e).outcome ≡ again l.counter)
            × ((r_lock l e).lock ≡ l)
            × ((r_lock l l.counter).outcome ≡ done true)
            × ((r_lock l l.counter).lock.counter ≡ pos 1)))
      × (((w_lock l e).outcome ≡ done true) × ((w_lock l e).lock.counter ≡ minus_one)
          ⊎ (((w_lock l e).outcome ≡ again l.counter)
              × ((w_lock l e).lock ≡ l)
              × ((w_lock l l.counter).outcome ≡ done true)
              × ((w_lock l l.counter).lock.counter ≡ minus_one)))
unfolding r_lock w_lock
free_lock_taken l e h = (ground (arith, h), ground (arith, h))
