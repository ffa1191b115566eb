-- ===== src/Silo/Holding.antt =====
-- The tuples that a worker of silo/ holds, in each of its phases.
use ccbench.Common.{ℕ, ◌≤◌, List, [], arith, count}
use ccbench.Timestamps.Protocol.{Protocol}
use ccbench.Silo.Operations.{WriteElement, write_keys}
use ccbench.Silo.Workers.{Phase, locking, fenced, validating, unlocking, storing, releasing, Worker}

-- The tuples that a worker has locked.
abbrev pub held : Phase → List WriteElement → List ℕ
held (locking done rest) ws = write_keys done
held (fenced epoch) ws = write_keys ws
held (validating checked rest) ws = write_keys ws
held (unlocking rest) ws = write_keys rest
held (storing rest) ws = write_keys rest
held (releasing rest) ws = write_keys rest
held _ ws = []

abbrev pub held_on : ℕ → Worker → ℕ
held_on k w = count k (held w.phase w.tx.write_set)

-- Those that it will store to.
abbrev pub pending : Phase → List ℕ
pending (storing rest) = write_keys rest
pending (releasing rest) = write_keys rest
pending _ = []

abbrev pub pending_on : ℕ → Worker → ℕ
pending_on k w = count k (pending w.phase)

-- Those that it may still store to at its ticket.
abbrev pub claims : Phase → List WriteElement → List ℕ
claims (fenced epoch) ws = write_keys ws
claims (validating checked rest) ws = write_keys ws
claims (storing rest) ws = write_keys rest
claims (releasing rest) ws = write_keys rest
claims _ ws = []

abbrev pub claims_on : ℕ → Worker → ℕ
claims_on k w = count k (claims w.phase w.tx.write_set)

pub pending-le-claims_on : (k : ℕ) (w : Worker) → pending_on k w ≤ claims_on k w
pending-le-claims_on k w = ground arith

pub claims-le-held_on : (k : ℕ) (w : Worker) → claims_on k w ≤ held_on k w
claims-le-held_on k w = ground arith

abbrev pub silo : Protocol
silo = record {
  Worker = Worker;
  held = held_on;
  claims = claims_on;
  pending = pending_on;
  ts = λ w. w.ticket;
  payload = λ w. w.tx.write_val;
  pending-le-claims = pending-le-claims_on;
  claims-le-held = claims-le-held_on;
}
