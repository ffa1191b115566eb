-- ===== src/Tictoc/Safety.antt =====
-- What tictoc/ guarantees in every reachable state, for any number of workers and any interleaving.
use ccbench.Common.{ℕ, ◌^◌, ◌≤◌, ◌<◌, ◌≡◌, ◌≢◌, sym, ◌∙◌, false, true, arith}
use ccbench.Common.Family.{sum_of-eq-zero}
use ccbench.Serial.{Db, Serial}
use ccbench.Tictoc.Types.{rts}
use ccbench.Timestamps.History.{commits, replay, IsSorted, IsSerial-Serial, state_at-replay}
use ccbench.Tictoc.Workers.{System, Reach}
use ccbench.Tictoc.World.{held_on, pending_on, claims_on}
use ccbench.Timestamps.Invariant.{exclusive, held-locked}
use ccbench.Tictoc.Invariant.{Inv}
use ccbench.Tictoc.Steps.{Reach-Inv}

-- Without `TIMESTAMP_HISTORY`, whatever `n` workers do in whatever order, within fewer than 2^48 steps
-- the validated transactions, sorted by their commit timestamps, form a serial history: run one at a
-- time in this order from the first database, each finds the payloads that it has read, and the
-- database at the end is the table, in every tuple where no write of such a transaction is still
-- pending.
pub timestamp_serializable :
    {n m : ℕ} {first vals : Db} {s : System}
    → Reach false n first vals m s
    → m < 2 ^ 48
    → IsSorted s.history
      × Serial first (commits s.history) (replay first s.history)
      × ((k : ℕ)
          → ((i : ℕ) → i < n → pending_on k (s.workers i) ≡ 0)
          → replay first s.history k ≡ (s.table k).val)
timestamp_serializable {n} {m} {first} {s = s} r small = (
  inv.core.sorted,
  IsSerial-Serial first s.history inv.core.serial,
  λ k quiet.
      sym (state_at-replay first s.history m k inv.core.history_ts)
      ∙ inv.core.current k m (sum_of-eq-zero (pending_on k) n s.workers quiet)
          (omega (arith, inv.core.table_ts k)),
)
  where
    inv : Inv n first m s
    inv = Reach-Inv r small

-- Without `TIMESTAMP_HISTORY` and within fewer than 2^48 steps, a tuple that a worker has locked has its
-- lock bit set and is locked by no other worker; and while the worker may still store to it, the
-- worker's commit timestamp is above the tuple's read timestamp.
pub word_lock_exclusive :
    {n m : ℕ} {first vals : Db} {s : System}
    → Reach false n first vals m s
    → m < 2 ^ 48
    → (i j k : ℕ) → i < n
    → j < n
    → i ≢ j
    → 1 ≤ held_on k (s.workers i)
    → (held_on k (s.workers j) ≡ 0)
      × ((s.table k).tsw.lock ≡ true)
      × (1 ≤ claims_on k (s.workers i) → rts (s.table k).tsw < (s.workers i).tx.commit_ts)
word_lock_exclusive r small i j k hi hj ne h = (
  exclusive (Reach-Inv r small).core j i k hj hi (ground (arith, ne)) h,
  held-locked (Reach-Inv r small).core i k hi h,
  (Reach-Inv r small).core.claimed i k hi,
)
