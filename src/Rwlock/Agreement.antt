-- ===== src/Rwlock/Agreement.antt =====
-- When the counter of a lock agrees with the numbers of its readers and writers, and how each
-- operation of include/rwlock.hh keeps the agreement.
use ccbench.Common.{ℕ, suc, ◌≡◌, ◌⊎◌, true, false, arith}
use ccbench.Common.Int.{ℤ, pos, minus_one}
use ccbench.Rwlock.{
  RwLock, Outcome, again, done, r_lock, r_trylock, r_unlock, w_lock, w_trylock, w_unlock, upgrade,
  tryupgrade,
}

-- `r` threads read, `w` threads write.
abbrev pub Agrees : RwLock → ℕ → ℕ → Type 0
Agrees l r w = ((w ≡ 0) × (l.counter ≡ pos r)) ⊎ ((w ≡ 1) × (r ≡ 0) × (l.counter ≡ minus_one))

-- `P` if the turn took the lock, and otherwise `Q`.
abbrev pub IfTaken : Outcome → Type 0 → Type 0 → Type 0
IfTaken (done true) P Q = P
IfTaken (done false) P Q = Q
IfTaken (again e) P Q = Q

module _ (l : RwLock) (e : ℤ) {r w : ℕ} (a : Agrees l r w) where
  pub r_lock-Agrees :
      IfTaken
        (r_lock l e).outcome
        (Agrees (r_lock l e).lock (suc r) w × (w ≡ 0))
        ((r_lock l e).lock ≡ l)
  unfolding r_lock
  r_lock-Agrees = ground arith

  pub r_trylock-Agrees :
      IfTaken
        (r_trylock l e).outcome
        (Agrees (r_trylock l e).lock (suc r) w × (w ≡ 0))
        ((r_trylock l e).lock ≡ l)
  unfolding r_trylock
  r_trylock-Agrees = ground arith

  pub w_lock-Agrees :
      IfTaken
        (w_lock l e).outcome
        (Agrees (w_lock l e).lock r (suc w) × (w ≡ 0) × (r ≡ 0))
        ((w_lock l e).lock ≡ l)
  unfolding w_lock
  w_lock-Agrees = ground arith

  pub w_trylock-Agrees :
      IfTaken
        (w_trylock l e).outcome
        (Agrees (w_trylock l e).lock r (suc w) × (w ≡ 0) × (r ≡ 0))
        ((w_trylock l e).lock ≡ l)
  unfolding w_trylock
  w_trylock-Agrees = ground arith

module _ (l : RwLock) (e : ℤ) {r w : ℕ} (a : Agrees l (suc r) w) where
  pub upgrade-Agrees :
      IfTaken
        (upgrade l e).outcome
        (Agrees (upgrade l e).lock r (suc w) × (r ≡ 0))
        ((upgrade l e).lock ≡ l)
  unfolding upgrade
  upgrade-Agrees = ground arith

  pub tryupgrade-Agrees :
      IfTaken
        (tryupgrade l e).outcome
        (Agrees (tryupgrade l e).lock r (suc w) × (r ≡ 0))
        ((tryupgrade l e).lock ≡ l)
  unfolding tryupgrade
  tryupgrade-Agrees = ground arith

pub r_unlock-Agrees : (l : RwLock) {r w : ℕ} → Agrees l (suc r) w → Agrees (r_unlock l) r w
unfolding r_unlock
r_unlock-Agrees l a = ground arith

pub w_unlock-Agrees : (l : RwLock) {r w : ℕ} → Agrees l r (suc w) → Agrees (w_unlock l) r w
unfolding w_unlock
w_unlock-Agrees l a = ground arith
