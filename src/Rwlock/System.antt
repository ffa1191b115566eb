-- ===== src/Rwlock/System.antt =====
-- `n` threads that use one lock of include/rwlock.hh, a shared access at a time, in any order.
use ccbench.Common.{ℕ, ◌<◌, true, false}
use ccbench.Common.Int.{ℤ}
use ccbench.Common.Family.{assign}
use ccbench.Rwlock.{
  RwLock, init, Outcome, again, done, Turn, r_lock, r_trylock, r_unlock, w_lock, w_trylock,
  w_unlock, upgrade, tryupgrade,
}

-- The calls that take the lock from scratch, and those that turn a read lock into a write lock.
pub data Acquire : Type 0 where
  by_r_lock by_r_trylock by_w_lock by_w_trylock : Acquire

pub data Raise : Type 0 where
  by_upgrade by_tryupgrade : Raise

-- Where a thread stands; `expected` is the local variable of the call that it is in.
pub data Pc : Type 0 where
  idle : Pc
  acquiring : Acquire → (expected : ℤ) → Pc
  reading : Pc
  raising : Raise → (expected : ℤ) → Pc
  writing : Pc

abbrev pub acquire : Acquire → RwLock → ℤ → Turn
acquire by_r_lock = r_lock
acquire by_r_trylock = r_trylock
acquire by_w_lock = w_lock
acquire by_w_trylock = w_trylock

abbrev pub raise : Raise → RwLock → ℤ → Turn
raise by_upgrade = upgrade
raise by_tryupgrade = tryupgrade

abbrev pub taken : Acquire → Pc
taken by_r_lock = reading
taken by_r_trylock = reading
taken by_w_lock = writing
taken by_w_trylock = writing

abbrev pub after_acquire : Acquire → Outcome → Pc
after_acquire a (again e) = acquiring a e
after_acquire a (done true) = taken a
after_acquire a (done false) = idle

abbrev pub after_raise : Raise → Outcome → Pc
after_raise u (again e) = raising u e
after_raise u (done true) = writing
after_raise u (done false) = reading

-- One access of one thread. A thread releases only what it holds.
pub data Move (l : RwLock) : Pc → RwLock → Pc → Type 0 where
  call : (a : Acquire) → Move l idle l (acquiring a l.counter)
  turn :
      (a : Acquire) {e : ℤ}
      → Move l (acquiring a e) (acquire a l e).lock (after_acquire a (acquire a l e).outcome)
  call_raise : (u : Raise) → Move l reading l (raising u l.counter)
  turn_raise :
      (u : Raise) {e : ℤ}
      → Move l (raising u e) (raise u l e).lock (after_raise u (raise u l e).outcome)
  release_read : Move l reading (r_unlock l) idle
  release_write : Move l writing (w_unlock l) idle

pub record System : Type 0 where
  pub lock : RwLock
  pub pc : ℕ → Pc

abbrev pub start : System
start = record { lock = init; pc = λ _. idle }

pub data Step (n : ℕ) (s : System) : System → Type 0 where
  pick :
      (i : ℕ) {l : RwLock} {p : Pc}
      → i < n
      → Move s.lock (s.pc i) l p
      → Step n s (record { lock = l; pc = assign s.pc i p })

pub data Reach (n : ℕ) : System → Type 0 where
  here : Reach n start
  next : {s t : System} → Reach n s → Step n s t → Reach n t
