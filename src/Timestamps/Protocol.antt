-- ===== src/Timestamps/Protocol.antt =====
-- What the proofs see of a protocol: of a tuple its lock, two timestamps and its payload, and of a
-- worker the tuples that it has locked and the timestamp of its transaction.
use ccbench.Common.{ℕ, ◌≤◌, Bool, List, if◌then◌else◌}
use ccbench.Procedure.{Payload}
use ccbench.Timestamps.History.{Stamped}

-- `wts` is the timestamp of the last transaction that is stored, and no transaction that is still
-- undecided writes the tuple at a timestamp up to `rts`.
pub record Cell : Type 0 where
  pub lock : Bool
  pub wts : ℕ
  pub rts : ℕ
  pub val : Payload

abbrev pub bit : Bool → ℕ
bit b = if b then 1 else 0

-- How often a worker has locked a tuple, how often it may still store to it at its timestamp, and how
-- often a transaction of its that is decided has yet to store there.
pub record Protocol : Type 1 where
  pub Worker : Type 0
  pub held : ℕ → Worker → ℕ
  pub claims : ℕ → Worker → ℕ
  pub pending : ℕ → Worker → ℕ
  pub ts : Worker → ℕ
  pub payload : Worker → Payload
  pub pending-le-claims : (k : ℕ) (w : Worker) → pending k w ≤ claims k w
  pub claims-le-held : (k : ℕ) (w : Worker) → claims k w ≤ held k w

pub record View (π : Protocol) : Type 0 where
  pub cells : ℕ → Cell
  pub workers : ℕ → π.Worker
  pub history : List Stamped
