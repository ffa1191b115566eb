-- ===== src/Rwlock/Invariant.antt =====
-- In every reachable state the counter agrees with the threads that hold the lock.
use ccbench.Common.{ℕ, suc, ◌+◌, ◌-◌, refl, inl, arith}
use mathlib.Core.Path.{subst₂}
use ccbench.Common.Family.{sum_of, sum_of-assign, sum_of-eq-zero, le-sum_of}
use ccbench.Rwlock.{RwLock, init}
use ccbench.Rwlock.Agreement.{
  Agrees, r_lock-Agrees, r_trylock-Agrees, w_lock-Agrees, w_trylock-Agrees, upgrade-Agrees,
  tryupgrade-Agrees, r_unlock-Agrees, w_unlock-Agrees,
}
use ccbench.Rwlock.System.{
  by_r_lock, by_r_trylock, by_w_lock, by_w_trylock, by_upgrade, by_tryupgrade, Pc, idle, reading,
  raising, writing, Move, call, turn, call_raise, turn_raise, release_read, release_write, System,
  Step, pick, Reach, here, next,
}

abbrev pub reads : Pc → ℕ
reads reading = 1
reads (raising u e) = 1
reads _ = 0

abbrev pub writes : Pc → ℕ
writes writing = 1
writes _ = 0

abbrev pub IsSound : ℕ → System → Type 0
IsSound n s = Agrees s.lock (sum_of reads n s.pc) (sum_of writes n s.pc)

Move-Agrees :
    {l l' : RwLock} {p p' : Pc}
    → Move l p l' p'
    → (r w : ℕ) → Agrees l (reads p + r) (writes p + w)
    → Agrees l' (reads p' + r) (writes p' + w)
Move-Agrees (call a) r w h = h
Move-Agrees {l} (turn by_r_lock {e}) r w h = ground (arith, r_lock-Agrees l e h)
Move-Agrees {l} (turn by_r_trylock {e}) r w h = ground (arith, r_trylock-Agrees l e h)
Move-Agrees {l} (turn by_w_lock {e}) r w h = ground (arith, w_lock-Agrees l e h)
Move-Agrees {l} (turn by_w_trylock {e}) r w h = ground (arith, w_trylock-Agrees l e h)
Move-Agrees (call_raise u) r w h = h
Move-Agrees {l} (turn_raise by_upgrade {e}) r w h =
    let held : Agrees l (suc r) w = ground arith in ground (arith, upgrade-Agrees l e held)
Move-Agrees {l} (turn_raise by_tryupgrade {e}) r w h =
    let held : Agrees l (suc r) w = ground arith in ground (arith, tryupgrade-Agrees l e held)
Move-Agrees {l} release_read r w h =
    let held : Agrees l (suc r) w = ground arith in ground (arith, r_unlock-Agrees l held)
Move-Agrees {l} release_write r w h =
    let held : Agrees l r (suc w) = ground arith in ground (arith, w_unlock-Agrees l held)

-- A step of the system changes only what the thread that moves adds to the two sums.
pub Step-IsSound : {n : ℕ} {s t : System} → Step n s t → IsSound n s → IsSound n t
Step-IsSound {n} {s} (pick i {l} {p} lt mv) h =
    subst₂ (Agrees l) (omega (arith, sum_of-assign reads n s.pc i p, le-sum_of reads n s.pc i))
      (omega (arith, sum_of-assign writes n s.pc i p, le-sum_of writes n s.pc i))
      (Move-Agrees mv (sum_of reads n s.pc - reads (s.pc i))
        (sum_of writes n s.pc - writes (s.pc i))
        (subst₂ (Agrees s.lock) (omega (arith, le-sum_of reads n s.pc i))
          (omega (arith, le-sum_of writes n s.pc i)) h))

pub Reach-IsSound : {n : ℕ} {s : System} → Reach n s → IsSound n s
unfolding init
Reach-IsSound {n} here = inl (
  sum_of-eq-zero writes n _ (λ i lt. refl),
  rw (sum_of-eq-zero reads n (λ _. idle) (λ i lt. refl)) refl,
)
Reach-IsSound (next r st) = Step-IsSound st (Reach-IsSound r)
