-- ===== src/LockManager/Types.antt =====
-- lock-manager/ss2pl.cc: the data. A tuple is the index of its key in `Table`; `lock_for_lock_` guards a
-- wait list while one operation changes it, and these operations are taken whole. `status_` is never
-- read, and `begin` only sets it.
use ccbench.Common.{ℕ, List, map}
use ccbench.Common.Family.{assign}
use ccbench.Rwlock.{RwLock}

pub data Ope : Type 0 where
  read write sleep : Ope

pub record Task : Type 0 where
  pub ope : Ope
  pub key : ℕ

pub record Tuple : Type 0 where
  pub lock : RwLock
  pub wait_list : List ℕ
  pub value : ℕ

abbrev pub Table : Type 0
Table = ℕ → Tuple

-- `ReadOperation` and `WriteOperation`.
pub record Operation : Type 0 where
  pub key : ℕ
  pub value : ℕ

pub record Transaction : Type 0 where
  pub task_set : List Task
  pub future_lock : List Task
  pub r_lock_list : List ℕ
  pub w_lock_list : List ℕ
  pub read_set : List Operation
  pub write_set : List Operation

abbrev pub keys : List Task → List ℕ
keys = map (λ (t : Task). t.key)

-- A table and a transaction that works on it.
pub record State : Type 0 where
  pub table : Table
  pub tx : Transaction

abbrev pub set_lock : Table → ℕ → RwLock → Table
set_lock t k l = assign t k (record (t k) { lock = l })

abbrev pub set_wait_list : Table → ℕ → List ℕ → Table
set_wait_list t k ids = assign t k (record (t k) { wait_list = ids })
