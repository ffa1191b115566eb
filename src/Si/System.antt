-- ===== src/Si/System.antt =====
-- si/si.cc and si/util.cc: the workers and what they share, the steps that they take in any order, and the
-- states that they reach.
use ccbench.Common.{ℕ, suc, ◌<◌, ◌≡◌, Bool, ◌==◌, if◌then◌else◌, List, [], none, some}
use ccbench.Common.Family.{assign}
use ccbench.Procedure.{Payload, Procedure}
use ccbench.Si.Types
use ccbench.Si.Types.{Shared}
use ccbench.Si.Workers.{idle, Worker, Progress, proceed, start}

-- `clock` counts the steps.
pub record System : Type 0 where
  pub shared : Shared
  pub workers : ℕ → Worker
  pub clock : ℕ

abbrev pub advance : System → ℕ → Progress → System
advance s i p = record {
  shared = p.shared;
  workers = assign s.workers i p.worker;
  clock = suc s.clock;
}

pub data Step (cctr_on : Bool) (n : ℕ) (s : System) : System → Type 0 where
  starts :
      (i : ℕ) (todo : List Procedure)
      → i < n
      → (s.workers i).phase ≡ idle
      → Step cctr_on n s (advance s i (start cctr_on todo s.shared (s.workers i)))
  runs :
      (i : ℕ)
      → i < n
      → Step cctr_on n s (advance s i (proceed n i (s.workers i).phase s.shared (s.workers i)))

-- A version of each tuple, and numbers that nobody has allocated, which hold anything aborted.
unfoldable pub init : (ℕ → Payload) → (ℕ → Payload) → System
init db vals = record {
  shared = record {
    table = λ k. record {
      latest = 0;
      versions = λ v.
          if v == 0
          then record {
            prev = none;
            committed_prev = none;
            cstamp = 0;
            status = Types.VersionStatus.committed;
            val = db k;
            owner = 0;
            began = 0;
          }
          else record {
            prev = none;
            committed_prev = some 0;
            cstamp = 0;
            status = Types.VersionStatus.aborted;
            val = [];
            owner = 0;
            began = 0;
          };
    };
    allocated = 1;
    cctr = 0;
    lastcstamp = λ i. 0;
  };
  workers = λ i. record {
    tx = record {
      cstamp = 0;
      txid = 0;
      return_val = [];
      write_val = vals i;
      read_set = [];
      write_set = [];
      status = Types.TransactionStatus.in_flight;
    };
    phase = idle;
    local_commit_counts = 0;
    local_abort_counts = 0;
  };
  clock = 0;
}

pub data Reach (cctr_on : Bool) (n : ℕ) (db vals : ℕ → Payload) : System → Type 0 where
  here : Reach cctr_on n db vals (init db vals)
  next : {s t : System} → Reach cctr_on n db vals s → Step cctr_on n s t → Reach cctr_on n db vals t
