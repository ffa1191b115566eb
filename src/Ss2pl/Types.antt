-- ===== src/Ss2pl/Types.antt =====
-- ss2pl/include/{transaction,tuple,ss2pl_op_element}.hh and include/procedure.hh: the data that a
-- transaction works on. A `Tuple *`, and a pointer to the lock in a tuple, is the tuple's index in
-- `Table`; a `char[VAL_SIZE]` is the list of its bytes.
use ccbench.Common.{ℕ, List, map}
pub use ccbench.Procedure.{Payload, Ope, read, write, read_modify_write, Procedure}
pub use ccbench.Serial.{SetElement}
use ccbench.Rwlock.{RwLock}

pub record Tuple : Type 0 where
  pub lock : RwLock
  pub val : Payload

-- The array `Table`.
abbrev pub Table : Type 0
Table = ℕ → Tuple

pub data TransactionStatus : Type 0 where
  in_flight committed aborted : TransactionStatus

pub record TxExecutor : Type 0 where
  pub r_lock_list : List ℕ
  pub w_lock_list : List ℕ
  pub status : TransactionStatus
  pub read_set : List SetElement
  pub write_set : List ℕ
  pub write_val : Payload
  pub return_val : Payload
  pub local_abort_counts : ℕ

abbrev pub keys : List SetElement → List ℕ
keys = map λ e. e.key
