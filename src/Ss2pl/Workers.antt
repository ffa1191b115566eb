-- ===== src/Ss2pl/Workers.antt =====
-- ss2pl/ss2pl.cc: the loop of `worker`, for `n` threads that run at once. The loops of `commit` and
-- of `unlockList` are taken one round at a time, and the rounds of all threads interleave freely.
-- The procedures of a transaction are any list: `makeProcedure` draws them at random, and a retry
-- after an abort takes the old list again.
use ccbench.Common.{
  ℕ, suc, ◌<◌, ◌≡◌, Bool, true, false, ◌||◌, if◌then◌else◌, List, [], ◌∷◌, ◌++◌, Option, none, some,
}
use ccbench.Common.Family.{assign}
use ccbench.Rwlock
pub use ccbench.Serial.{Commit}
use ccbench.Ss2pl.Types.{
  Payload, read, write, read_modify_write, Procedure, Table, SetElement, TransactionStatus,
  in_flight, aborted, TxExecutor,
}
use ccbench.Ss2pl.Operations.{
  search_read_set, search_write_set, begin, execute, store, unlock_read, unlock_write, clear_sets,
}

-- Where a worker stands: between transactions, before the operations `todo`, in the loop of `commit`
-- or in the two loops of `unlockList`, with the iterator's position.
pub data Phase : Type 0 where
  idle : Phase
  running : (todo : List Procedure) → Phase
  storing : (rest : List ℕ) → Phase
  unlocking : (reads writes : List ℕ) → Phase

-- `seen` is no variable of the program: each entry that the read set has had in this transaction, and
-- each payload that `readWrite` has copied to `return_val_`, with its key.
pub record Worker : Type 0 where
  pub tx : TxExecutor
  pub phase : Phase
  pub seen : List SetElement
  pub local_commit_counts : ℕ

pub record Progress : Type 0 where
  pub table : Table
  pub worker : Worker
  pub logged : Option Commit

abbrev pub is_aborted : TransactionStatus → Bool
is_aborted aborted = true
is_aborted _ = false

-- What `readWrite` has copied to `return_val_`, if `x` becomes `x'` without an abort: it copies the
-- payload of a key that it finds in neither set.
abbrev pub loaded : TxExecutor → Procedure → TxExecutor → List SetElement
loaded x p x' = elim p.ope [
  | read ↦ []
  | write ↦ []
  | read_modify_write ↦
      if is_aborted x'.status || search_write_set x p.key || search_read_set x p.key
      then []
      else record { key = p.key; val = x'.return_val } ∷ []
]

-- `if (trans.status_ == aborted) { trans.abort(); goto RETRY; }`, up to the loops of `unlockList`.
abbrev after_operation : TxExecutor → List Procedure → Phase
after_operation x todo =
    if is_aborted x.status then unlocking x.r_lock_list x.w_lock_list else running todo

-- The end of `abort` or of `commit`.
abbrev pub finish : Worker → Worker
finish w =
    if is_aborted w.tx.status
    then record w {
      tx = record cleared { local_abort_counts = suc w.tx.local_abort_counts };
      phase = idle;
    }
    else record w { tx = cleared; phase = idle; local_commit_counts = suc w.local_commit_counts }
  where
    cleared : TxExecutor
    cleared = record (clear_sets w.tx) { r_lock_list = []; w_lock_list = [] }

unfoldable pub proceed : Phase → Table → Worker → Progress
unfolding store unlock_read unlock_write search_read_set search_write_set
proceed idle t w = record { table = t; worker = record w { phase = idle }; logged = none }
proceed (running []) t w = record {
  table = t;
  worker = record w { phase = storing w.tx.write_set };
  logged = some (record { reads = w.seen; writes = w.tx.write_set; val = w.tx.write_val });
}
proceed (running (p ∷ todo)) t w =
    let s = execute (record { table = t; tx = w.tx }) p in
    record {
      table = s.table;
      worker = record w {
        tx = s.tx;
        seen = loaded w.tx p s.tx ++ s.tx.read_set ++ w.seen;
        phase = after_operation s.tx todo;
      };
      logged = none;
    }
proceed (storing (k ∷ rest)) t w = record {
  table = store w.tx.write_val t k;
  worker = record w { phase = storing rest };
  logged = none;
}
proceed (storing []) t w = record {
  table = t;
  worker = record w { phase = unlocking w.tx.r_lock_list w.tx.w_lock_list };
  logged = none;
}
proceed (unlocking (k ∷ reads) writes) t w = record {
  table = unlock_read t k;
  worker = record w { phase = unlocking reads writes };
  logged = none;
}
proceed (unlocking [] (k ∷ writes)) t w = record {
  table = unlock_write t k;
  worker = record w { phase = unlocking [] writes };
  logged = none;
}
proceed (unlocking [] []) t w = record { table = t; worker = finish w; logged = none }

-- `trans.begin()`, with the procedures that `makeProcedure` drew.
unfoldable pub start : Worker → List Procedure → Worker
unfolding begin
start w todo = record w { tx = begin w.tx; phase = running todo; seen = [] }

pub record System : Type 0 where
  pub table : Table
  pub workers : ℕ → Worker
  pub log : List Commit  -- the newest first

abbrev pub append_log : Option Commit → List Commit → List Commit
append_log none log = log
append_log (some c) log = c ∷ log

abbrev pub run_worker : System → ℕ → System
run_worker s i = record {
  table = p.table;
  workers = assign s.workers i p.worker;
  log = append_log p.logged s.log;
}
  where
    p : Progress
    p = proceed (s.workers i).phase s.table (s.workers i)

pub data Step (n : ℕ) (s : System) : System → Type 0 where
  starts :
      (i : ℕ) (todo : List Procedure)
      → i < n
      → (s.workers i).phase ≡ idle
      → Step n s (record s { workers = assign s.workers i (start (s.workers i) todo) })
  runs : (i : ℕ) → i < n → Step n s (run_worker s i)

-- `TxExecutor`'s constructor, with the payload that this thread writes.
abbrev pub fresh_tx : Payload → TxExecutor
fresh_tx val = record {
  r_lock_list = [];
  w_lock_list = [];
  status = in_flight;
  read_set = [];
  write_set = [];
  write_val = val;
  return_val = [];
  local_abort_counts = 0;
}

-- `makeDB`, with any payloads, and one `TxExecutor` for each thread.
unfoldable pub init : (ℕ → Payload) → (ℕ → Payload) → System
init db vals = record {
  table = λ k. record { lock = Rwlock.init; val = db k };
  workers =
      λ i. record { tx = fresh_tx (vals i); phase = idle; seen = []; local_commit_counts = 0 };
  log = [];
}

pub data Reach (n : ℕ) (db vals : ℕ → Payload) : System → Type 0 where
  here : Reach n db vals (init db vals)
  next : {s t : System} → Reach n db vals s → Step n s t → Reach n db vals t
