-- ===== src/Silo/Safety.antt =====
-- What silo/ guarantees in every reachable state, for any number of workers and any interleaving.
use ccbench.Common.{ℕ, ◌≤◌, ◌<◌, ◌≡◌, ◌≢◌, sym, ◌∙◌, true, arith}
use ccbench.Common.Family.{sum_of-eq-zero}
use ccbench.Serial.{Db, Serial}
use ccbench.Timestamps.History.{commits, replay, IsSorted, IsSerial-Serial, state_at-replay}
use ccbench.Timestamps.Invariant.{exclusive, held-locked}
use ccbench.Silo.System.{System, Reach}
use ccbench.Silo.Holding.{held_on, pending_on}
use ccbench.Silo.Invariant.{Inv}
use ccbench.Silo.Steps.{HadRoom, Reach-Inv}

-- Whatever `n` workers of silo/ do in whatever order, while no TID field is at its largest value and the
-- epochs fit their field, the validated transactions, sorted by the step at which each had locked its
-- whole write set, form a serial history: run one at a time in this order from the first database, each
-- finds the payloads that it has read, and the database at the end is the table, in every tuple where no
-- write of such a transaction is still pending.
pub ticket_serializable :
    {n : ℕ} {first vals : Db} {s : System} (r : Reach n first vals s)
    → HadRoom r
    → IsSorted s.history
      × Serial first (commits s.history) (replay first s.history)
      × ((k : ℕ)
          → ((i : ℕ) → i < n → pending_on k (s.workers i) ≡ 0)
          → replay first s.history k ≡ (s.shared.table k).val)
ticket_serializable {n} {first} {s = s} r room = (
  inv.core.sorted,
  IsSerial-Serial first s.history inv.core.serial,
  λ k quiet.
      sym (state_at-replay first s.history s.clock k inv.core.history_ts)
      ∙ inv.core.current k s.clock (sum_of-eq-zero (pending_on k) n s.workers quiet)
          (omega (arith, inv.core.table_ts k, inv.core.range k)),
)
  where
    inv : Inv n first s
    inv = Reach-Inv r room

-- Under the same condition, a tuple that a worker of silo/ has locked, or that it has still to store to
-- or to unlock, has its lock bit set, and no other worker has locked it.
pub tid_lock_exclusive :
    {n : ℕ} {first vals : Db} {s : System} (r : Reach n first vals s)
    → HadRoom r
    → (i j k : ℕ) → i < n
    → j < n
    → i ≢ j
    → 1 ≤ held_on k (s.workers i)
    → (held_on k (s.workers j) ≡ 0) × ((s.shared.table k).tidword.lock ≡ true)
tid_lock_exclusive r room i j k hi hj ne h =
    let inv = (Reach-Inv r room).core in
    (exclusive inv j i k hj hi (ground (arith, ne)) h, held-locked inv i k hi h)
