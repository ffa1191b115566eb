-- ===== src/Tictoc/Workers.antt =====
-- tictoc/tictoc.cc: the loop of `worker`, for workers that run at once. Each load of a word, each copy of
-- a payload, each compare-and-swap that succeeds and each store is a step; a load and the
-- compare-and-swap that finds the word unchanged are one, and so is a load on which the worker only
-- decides. A failed compare-and-swap only loads the word again.
use ccbench.Common.{
  ℕ, suc, ◌≡◌, ◌<◌, Bool, true, false, if◌then◌else◌, List, [], ◌∷◌, ◌++◌, map, Option, none, some,
}
use ccbench.Common.Family.{assign}
use ccbench.Procedure.{Payload, read, write, read_modify_write, Procedure}
use ccbench.Serial
use ccbench.Serial.{Commit}
use ccbench.Timestamps.History.{Stamped, insert}
use ccbench.Tictoc.Types.{
  TsWord, zero_word, Table, SetElement, WriteElement, TransactionStatus, in_flight, aborted,
  TxExecutor, write_keys,
}
use ccbench.Tictoc.Operations.{
  search_read_set, search_write_set, begin, preemptive_aborts, abort_status, same_word, add_read,
  write_key, sort_write_set, lock_tuple, raise_for_write, unlock_tuple, raise_for_reads, Check,
  passes, extends, fails, check_read, extend_tuple, store_payload, store_word, clear_sets,
}

-- Between transactions; before the operations `todo`; in `read` with `v1`, at the top of its loop or
-- after the copy of the payload, `write_next` if `write` follows; before that `write`; in
-- `lockWriteSet`; in step 3 of the validation; in `unlockWriteSet`, which an abort follows; in
-- `writePhase`, before the payload or the words of the first element of `rest`.
pub data Phase : Type 0 where
  idle : Phase
  running : (todo : List Procedure) → Phase
  reading : (key : ℕ) (write_next : Bool) (todo : List Procedure) (v1 : TsWord) → Phase
  copied : (key : ℕ) (write_next : Bool) (todo : List Procedure) (v1 : TsWord) → Phase
  writing : (key : ℕ) (todo : List Procedure) → Phase
  locking : (locked rest : List WriteElement) → Phase
  validating : (checked rest : List SetElement) → Phase
  unlocking : (rest : List WriteElement) → Phase
  storing : (rest : List WriteElement) → Phase
  stored : (rest : List WriteElement) → Phase

pub record Worker : Type 0 where
  pub tx : TxExecutor
  pub phase : Phase
  pub local_commit_counts : ℕ
  pub local_abort_counts : ℕ

pub record Progress : Type 0 where
  pub table : Table
  pub worker : Worker
  pub logged : Option Stamped

abbrev pub moves : Table → Worker → Progress
moves t w = record { table = t; worker = w; logged = none }

abbrev pub goes_to : Table → Worker → Phase → Progress
goes_to t w ph = moves t (record w { phase = ph })

-- `abort`, and back to the start.
abbrev pub aborts : Worker → Worker
aborts w = record w {
  tx = clear_sets w.tx;
  phase = idle;
  local_abort_counts = suc w.local_abort_counts;
}

-- The test of `status_` after each operation.
abbrev pub after_status : TransactionStatus → Worker → List Procedure → Worker
after_status aborted w todo = aborts w
after_status _ w todo = record w { phase = running todo }

abbrev pub after_read : Worker → TxExecutor → ℕ → Bool → List Procedure → Worker
after_read w x key true todo = record w { tx = x; phase = writing key todo }
after_read w x key false todo = after_status x.status (record w { tx = x }) todo

-- The call of `read`, up to the first load.
abbrev pub calls_read : Table → Worker → ℕ → Bool → List Procedure → Worker
calls_read t w key write_next todo =
    if search_read_set w.tx key
    then after_read w w.tx key write_next todo
    else if search_write_set w.tx key
    then after_read w w.tx key write_next todo
    else record w { phase = reading key write_next todo (t key).tsw }

-- The top of the loop of `read`: a locked word is loaded again, unless the transaction gives up.
abbrev pub turns : Table → Worker → ℕ → Bool → List Procedure → TsWord → Worker
turns t w key write_next todo v1 =
    if v1.lock
    then if preemptive_aborts w.tx v1
      then after_read w (abort_status w.tx) key write_next todo
      else record w { phase = reading key write_next todo (t key).tsw }
    else record w {
      tx = record w.tx { return_val = (t key).val };
      phase = copied key write_next todo v1;
    }

-- The second load of `read`.
abbrev pub compares : Table → Worker → ℕ → Bool → List Procedure → TsWord → Worker
compares t w key write_next todo v1 =
    if same_word v1 (t key).tsw
    then after_read w (add_read w.tx key v1) key write_next todo
    else record w { phase = reading key write_next todo (t key).tsw }

abbrev pub starts_operation : Table → Worker → Procedure → List Procedure → Worker
starts_operation t w p todo = elim p.ope [
  | read ↦ calls_read t w p.key false todo
  | write ↦ record w { phase = writing p.key todo }
  | read_modify_write ↦ calls_read t w p.key true todo
]

-- A lock that is taken: the elements before it are unlocked.
abbrev pub locks : Table → Worker → List WriteElement → WriteElement → List WriteElement → Progress
locks t w done e rest =
    if (t e.key).tsw.lock
    then goes_to t (record w { tx = abort_status w.tx }) (unlocking done)
    else moves (lock_tuple t e.key)
        (record w { tx = raise_for_write t w.tx e.key; phase = locking (done ++ e ∷ []) rest })

abbrev pub after_check :
    Check → Table → Worker → List SetElement → SetElement → List SetElement → Progress
after_check passes t w checked e rest = goes_to t w (validating (checked ++ e ∷ []) rest)
after_check extends t w checked e rest =
    goes_to (extend_tuple t e.key w.tx.commit_ts) w (validating (checked ++ e ∷ []) rest)
after_check fails t w checked e rest = goes_to t w (unlocking w.tx.write_set)

abbrev pub found : SetElement → Serial.SetElement
found e = record { key = e.key; val = e.val }

-- What a validated transaction has read and writes.
abbrev pub commit_of : TxExecutor → Commit
commit_of x = record {
  reads = map found x.read_set;
  writes = write_keys x.write_set;
  val = x.write_val;
}

module _ (timestamp_history : Bool) where
  unfoldable pub proceed : Phase → Table → Worker → Progress
  unfolding search_read_set search_write_set begin preemptive_aborts same_word add_read write_key
      sort_write_set lock_tuple raise_for_write unlock_tuple raise_for_reads check_read extend_tuple
      store_payload store_word clear_sets
  proceed idle t w = goes_to t w idle
  proceed (running []) t w =
      goes_to t (record w { tx = sort_write_set w.tx }) (locking [] (sort_write_set w.tx).write_set)
  proceed (running (p ∷ todo)) t w = moves t (starts_operation t w p todo)
  proceed (reading key write_next todo v1) t w = moves t (turns t w key write_next todo v1)
  proceed (copied key write_next todo v1) t w = moves t (compares t w key write_next todo v1)
  proceed (writing key todo) t w =
      moves t (after_status w.tx.status (record w { tx = write_key t w.tx key }) todo)
  proceed (locking done (e ∷ rest)) t w = locks t w done e rest
  proceed (locking done []) t w =
      goes_to t (record w { tx = raise_for_reads w.tx }) (validating [] w.tx.read_set)
  proceed (validating checked (e ∷ rest)) t w =
      after_check (check_read timestamp_history t w.tx e) t w checked e rest
  proceed (validating checked []) t w = record {
    table = t;
    worker = record w { phase = storing w.tx.write_set };
    logged = some (record { ts = w.tx.commit_ts; commit = commit_of w.tx });
  }
  proceed (unlocking (e ∷ rest)) t w = goes_to (unlock_tuple t e.key) w (unlocking rest)
  proceed (unlocking []) t w = moves t (aborts w)
  proceed (storing (e ∷ rest)) t w =
      goes_to (store_payload t e.key w.tx.write_val) w (stored (e ∷ rest))
  proceed (storing []) t w = moves t (record w {
    tx = clear_sets w.tx;
    phase = idle;
    local_commit_counts = suc w.local_commit_counts;
  })
  proceed (stored (e ∷ rest)) t w =
      goes_to (store_word timestamp_history t e w.tx.commit_ts) w (storing rest)
  proceed (stored []) t w = goes_to t w (storing [])

unfoldable pub start : Worker → List Procedure → Worker
unfolding begin
start w todo = record w { tx = begin w.tx; phase = running todo }

-- The history holds the validated transactions, sorted by their commit timestamps, the latest first.
pub record System : Type 0 where
  pub table : Table
  pub workers : ℕ → Worker
  pub history : List Stamped

abbrev pub record_in : Option Stamped → List Stamped → List Stamped
record_in none h = h
record_in (some c) h = insert c h

abbrev pub advance : System → ℕ → Progress → System
advance s i p = record {
  table = p.table;
  workers = assign s.workers i p.worker;
  history = record_in p.logged s.history;
}

pub data Step (timestamp_history : Bool) (n : ℕ) (s : System) : System → Type 0 where
  starts :
      (i : ℕ) (todo : List Procedure)
      → i < n
      → (s.workers i).phase ≡ idle
      → Step timestamp_history n s (advance s i (moves s.table (start (s.workers i) todo)))
  runs :
      (i : ℕ)
      → i < n
      → Step timestamp_history n s
          (advance s i (proceed timestamp_history (s.workers i).phase s.table (s.workers i)))

-- Words of 0, any payloads, and idle workers.
unfoldable pub init : (ℕ → Payload) → (ℕ → Payload) → System
init db vals = record {
  table = λ k. record { tsw = zero_word; pre_tsw = zero_word; val = db k };
  workers = λ i. record {
    tx = record {
      read_set = [];
      write_set = [];
      status = in_flight;
      commit_ts = 0;
      appro_commit_ts = 0;
      write_val = vals i;
      return_val = vals i;
    };
    phase = idle;
    local_commit_counts = 0;
    local_abort_counts = 0;
  };
  history = [];
}

-- The states that `m` steps lead to.
pub data Reach (timestamp_history : Bool) (n : ℕ) (db vals : ℕ → Payload)
    : ℕ → System → Type 0 where
  here : Reach timestamp_history n db vals 0 (init db vals)
  next :
      {m : ℕ} {s t : System}
      → Reach timestamp_history n db vals m s
      → Step timestamp_history n s t
      → Reach timestamp_history n db vals (suc m) t
