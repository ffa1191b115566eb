-- ===== src/Ss2pl/Serial.antt =====
-- The invariant that relates every interleaving of the workers of ss2pl/ to a serial history.
use ccbench.Common.{ℕ, ◌≤◌, ◌<◌, ◌≡◌}
use ccbench.Common.Family.{sum_of}
pub use ccbench.Serial.{Db, apply, apply-written, apply-kept, Serial, nothing, then_commit}
use ccbench.Rwlock.Agreement.{Agrees}
use ccbench.Ss2pl.Workers.{System}
use ccbench.Ss2pl.Progress.{reads_on, writes_on, pending_on, IsSettled}

-- `db` is what the transactions that have committed leave: the table, but for the writes that are
-- still pending.
pub record Inv (n : ℕ) (first : Db) (s : System) (db : Db) : Type 0 where
  pub serial : Serial first s.log db
  pub locks :
      (k : ℕ)
      → Agrees (s.table k).lock (sum_of (reads_on k) n s.workers) (sum_of (writes_on k) n s.workers)
  pub settled : (i : ℕ) → i < n → IsSettled (s.workers i).phase s.table (s.workers i)
  pub clean : (k : ℕ) → ((i : ℕ) → i < n → pending_on k (s.workers i) ≡ 0) → db k ≡ (s.table k).val
  pub dirty : (i k : ℕ) → i < n → 1 ≤ pending_on k (s.workers i) → db k ≡ (s.workers i).tx.write_val
