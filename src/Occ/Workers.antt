-- ===== src/Occ/Workers.antt =====
-- occ/occ.cc: the loop of `worker`, for `n` threads that run at once. An access to a shared variable
-- outside the section that `global_lock` guards is a step of its own, and so is each round of the loop
-- of `writePhase`. What only the owner of `global_lock` reads and writes is taken in one step.
use ccbench.Common.{
  ℕ, suc, ◌-◌, ◌^◌, ◌<◌, ◌≡◌, Bool, true, false, List, [], ◌∷◌, Option, none, some,
}
use ccbench.Common.Family.{assign}
use ccbench.Rwlock
use ccbench.Rwlock.{RwLock, Outcome, again, done, w_lock, w_unlock}
use ccbench.Procedure.{Payload, Procedure}
use ccbench.Serial.{Commit}
use ccbench.Occ.Operations.{
  TxnExecutor, Shared, begin, execute, validation_phase, store, publish, clear_sets,
}

-- Between transactions; before the operations `todo`; in the loop of `global_lock.w_lock()`; before
-- `validationPhase`; in the loop of `writePhase`; before `w_unlock()`. `faulted` is the undefined
-- behaviour of a read outside `ws_list`.
pub data Phase : Type 0 where
  idle : Phase
  running : (todo : List Procedure) → Phase
  waiting : (turn : Outcome) → Phase
  validating : Phase
  storing : (rest : List ℕ) → Phase
  leaving : (committed : Bool) → Phase
  faulted : Phase

pub record Worker : Type 0 where
  pub tx : TxnExecutor
  pub phase : Phase
  pub local_commit_counts : ℕ
  pub local_abort_counts : ℕ

pub record Progress : Type 0 where
  pub shared : Shared
  pub worker : Worker
  pub logged : Option Commit

abbrev pub unlogged : Shared → Worker → Progress
unlogged s w = record { shared = s; worker = w; logged = none }

-- After a turn of `w_lock`, or after the load before its first turn.
abbrev pub after_turn : Outcome → Phase
after_turn (done b) = validating
after_turn (again e) = waiting (again e)

-- What `worker` does with the result of `validationPhase`.
abbrev pub after_validation : Option Bool → Shared → Worker → Progress
after_validation none s w = unlogged s (record w { phase = faulted })
after_validation (some true) s w = record {
  shared = s;
  worker = record w { phase = storing w.tx.write_set };
  logged = some (record { reads = w.tx.read_set; writes = w.tx.write_set; val = w.tx.write_val });
}
after_validation (some false) s w = unlogged s (record w {
  tx = clear_sets w.tx;
  phase = leaving false;
  local_abort_counts = suc w.local_abort_counts;
})

module _ (threshold n thid : ℕ) where
  unfoldable pub proceed : Phase → Shared → Worker → Progress
  unfolding store publish clear_sets
  proceed idle s w = unlogged s (record w { phase = idle })
  proceed (running []) s w = unlogged s (record w { phase = waiting (again s.global_lock.counter) })
  proceed (running (p ∷ todo)) s w =
      unlogged s (record w { tx = execute s w.tx p; phase = running todo })
  proceed (waiting (again e)) s w =
      unlogged (record s { global_lock = (w_lock s.global_lock e).lock })
        (record w { phase = after_turn (w_lock s.global_lock e).outcome })
  proceed (waiting (done b)) s w = unlogged s (record w { phase = waiting (done b) })
  proceed validating s w = after_validation (validation_phase s w.tx) s w
  proceed (storing (k ∷ rest)) s w =
      unlogged (store w.tx.write_val s k) (record w { phase = storing rest })
  proceed (storing []) s w =
      unlogged (publish threshold n thid s w.tx)
        (record w { tx = clear_sets w.tx; phase = leaving true })
  proceed (leaving true) s w =
      unlogged (record s { global_lock = w_unlock s.global_lock })
        (record w { phase = idle; local_commit_counts = suc w.local_commit_counts })
  proceed (leaving false) s w =
      unlogged (record s { global_lock = w_unlock s.global_lock }) (record w { phase = idle })
  proceed faulted s w = unlogged s (record w { phase = faulted })

unfoldable pub start : Shared → Worker → List Procedure → Worker
unfolding begin
start s w todo = record w { tx = begin s w.tx; phase = running todo }

pub record System : Type 0 where
  pub shared : Shared
  pub workers : ℕ → Worker
  pub log : List Commit  -- the newest first

abbrev pub append_log : Option Commit → List Commit → List Commit
append_log none log = log
append_log (some c) log = c ∷ log

abbrev pub advance : System → ℕ → Progress → System
advance s i p = record {
  shared = p.shared;
  workers = assign s.workers i p.worker;
  log = append_log p.logged s.log;
}

pub data Step (threshold n : ℕ) (s : System) : System → Type 0 where
  starts :
      (i : ℕ) (todo : List Procedure)
      → i < n
      → (s.workers i).phase ≡ idle
      → Step threshold n s (
          advance s i (record {
            shared = s.shared;
            worker = start s.shared (s.workers i) todo;
            logged = none;
          }))
  runs :
      (i : ℕ)
      → i < n
      → Step threshold n s
          (advance s i (proceed threshold n i (s.workers i).phase s.shared (s.workers i)))

-- `txId` 0, no write sets, `deletedTxId` -1 and `progress` all 0; any payloads.
unfoldable pub init : (ℕ → Payload) → (ℕ → Payload) → System
init db vals = record {
  shared = record {
    tx_id = 0;
    ws_list = [];
    deleted_tx_id = 2 ^ 64 - 1;
    progress = λ i. 0;
    global_lock = Rwlock.init;
    table = db;
  };
  workers = λ i. record {
    tx = record { read_set = []; write_set = []; start_tx_id = 0; write_val = vals i };
    phase = idle;
    local_commit_counts = 0;
    local_abort_counts = 0;
  };
  log = [];
}

pub data Reach (threshold n : ℕ) (db vals : ℕ → Payload) : System → Type 0 where
  here : Reach threshold n db vals (init db vals)
  next :
      {s t : System}
      → Reach threshold n db vals s
      → Step threshold n s t
      → Reach threshold n db vals t
