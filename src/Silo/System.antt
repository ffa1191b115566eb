-- ===== src/Silo/System.antt =====
-- silo/silo.cc and silo/util.cc: the workers and the table they share, the leader, the steps that they take in
-- any order, and the states that they reach.
use ccbench.Common.{ℕ, suc, ◌≡◌, ◌<◌, true, List, [], Option, none, some}
use ccbench.Common.Family.{assign}
use ccbench.Procedure.{Payload, Procedure}
use ccbench.Timestamps.History.{Stamped, insert}
use ccbench.Silo.Tidword.{zero_word}
use ccbench.Silo.Operations.{in_flight}
use ccbench.Silo.Workers.{idle, leading, Worker, Shared, Progress, moves, goes_to, proceed, start}

-- The history holds the validated transactions, sorted by their tickets, the latest first; the clock
-- counts the steps.
pub record System : Type 0 where
  pub shared : Shared
  pub workers : ℕ → Worker
  pub history : List Stamped
  pub clock : ℕ

abbrev pub record_in : Option Stamped → List Stamped → List Stamped
record_in none h = h
record_in (some c) h = insert c h

abbrev pub advance : System → ℕ → Progress → System
advance s i p = record {
  shared = p.shared;
  workers = assign s.workers i p.worker;
  history = record_in p.logged s.history;
  clock = suc s.clock;
}

abbrev pub local_epochs : System → ℕ → ℕ
local_epochs s j = (s.workers j).tx.local_epoch

pub data Step (n : ℕ) (s : System) : System → Type 0 where
  starts :
      (i : ℕ) (todo : List Procedure)
      → i < n
      → (s.workers i).phase ≡ idle
      → Step n s (advance s i (moves s.shared (start (s.workers i) todo)))
  leads :
      0 < n
      → (s.workers 0).phase ≡ idle
      → Step n s (advance s 0 (goes_to s.shared (s.workers 0) (leading 1 s.shared.global_epoch)))
  runs :
      (i : ℕ)
      → i < n
      → Step n s (
          advance s i
            (proceed n s.clock (local_epochs s) (s.workers i).phase s.shared (s.workers i)))

-- Free words of epoch 1, any payloads, and idle workers.
unfoldable pub init : (ℕ → Payload) → (ℕ → Payload) → System
init db vals = record {
  shared = record {
    table = λ k. record { tidword = record zero_word { latest = true; epoch = 1 }; val = db k };
    global_epoch = 1;
    stamps = λ k. record { wts = 0; rts = 0 };
  };
  workers = λ i. record {
    tx = record {
      read_set = [];
      write_set = [];
      status = in_flight;
      mrctid = zero_word;
      max_rset = zero_word;
      max_wset = zero_word;
      write_val = vals i;
      local_epoch = 0;
    };
    phase = idle;
    ticket = 0;
    local_commit_counts = 0;
    local_abort_counts = 0;
  };
  history = [];
  clock = 0;
}

-- The states that the workers reach, from the first.
pub data Reach (n : ℕ) (db vals : ℕ → Payload) : System → Type 0 where
  here : Reach n db vals (init db vals)
  next : {s t : System} → Reach n db vals s → Step n s t → Reach n db vals t
