-- ===== src/Ss2pl/LockedOnce.antt =====
-- How often a worker of ss2pl/ has locked a tuple, in the states that the workers reach.
use ccbench.Common.{ℕ, ◌+◌, ◌≤◌, ◌<◌, subst, [], ◌∷◌, count, arith, Bool-cases, inl, inr}
use ccbench.Common.Family.{at_each}
use ccbench.Ss2pl.Types.{Table}
use ccbench.Ss2pl.Operations.{execute}
use ccbench.Ss2pl.Workers.{
  Phase, idle, running, storing, unlocking, Worker, is_aborted, proceed, start, System, Step,
  starts, runs, init, Reach, here, next,
}
use ccbench.Ss2pl.Progress.{held_reads, held_writes, reads_on, writes_on, IsSettled}
use ccbench.Ss2pl.Serial.{Db}
use ccbench.Ss2pl.Refinement.{Reach-Inv}
use ccbench.Ss2pl.Once.{execute-IsOnce}

-- Of each tuple a worker holds one lock at most.
abbrev IsSingle : Worker → Type 0
IsSingle w = (k : ℕ) → reads_on k w + writes_on k w ≤ 1

abbrev IsSingleAt : Phase → Worker → Type 0
IsSingleAt ph w = (k : ℕ) → count k (held_reads ph w.tx) + count k (held_writes ph w.tx) ≤ 1

proceed-IsSingle :
    (ph : Phase) (t : Table) (w : Worker)
    → IsSettled ph t w
    → IsSingleAt ph w
    → IsSingle (proceed ph t w).worker
unfolding proceed
proceed-IsSingle idle t w h once j = once j
proceed-IsSingle (running []) t w h once j = once j
proceed-IsSingle (running (p ∷ todo)) t w h once j =
    let after = execute-IsOnce (record { table = t; tx = w.tx }) p h.0 once j in
    elim (Bool-cases (is_aborted (execute (record { table = t; tx = w.tx }) p).tx.status)) [
      | inl fails ↦ rw fails after
      | inr goes ↦ rw goes after
    ]
proceed-IsSingle (storing (k ∷ rest)) t w h once j = once j
proceed-IsSingle (storing []) t w h once j = once j
proceed-IsSingle (unlocking (k ∷ reads) writes) t w h once j = ground (arith, once j)
proceed-IsSingle (unlocking [] (k ∷ writes)) t w h once j = ground (arith, once j)
proceed-IsSingle (unlocking [] []) t w h once j = ground arith

Step-IsSingle :
    {n : ℕ} {s t : System}
    → Step n s t
    → ((i : ℕ) → i < n → IsSettled (s.workers i).phase s.table (s.workers i))
    → ((i : ℕ) → i < n → IsSingle (s.workers i))
    → (i : ℕ) → i < n
    → IsSingle (t.workers i)
unfolding start
Step-IsSingle {s = s} (starts i todo lt e) settled once j hj =
    at_each IsSingle s.workers i _ j
      (λ k. subst (λ (ph : Phase). IsSingleAt ph (s.workers i)) e (once i lt) k)
      (λ other. once j hj)
Step-IsSingle {s = s} (runs i lt) settled once j hj =
    at_each IsSingle s.workers i _ j
      (proceed-IsSingle (s.workers i).phase s.table (s.workers i) (settled i lt) (once i lt))
      (λ other. once j hj)

-- Whatever `n` workers do in whatever order, no worker has locked a tuple twice, neither twice for
-- reading or for writing nor once for each: a second operation on a tuple finds it in the sets.
pub locked_once :
    {n : ℕ} {first vals : Db} {s : System}
    → Reach n first vals s
    → (i k : ℕ) → i < n
    → reads_on k (s.workers i) + writes_on k (s.workers i) ≤ 1
unfolding init
locked_once here i k lt = omega arith
locked_once (next r st) i k lt =
    Step-IsSingle st (Reach-Inv r).1.settled (λ j hj k. locked_once r j k hj) i lt k
