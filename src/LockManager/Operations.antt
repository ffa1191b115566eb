-- ===== src/LockManager/Operations.antt =====
-- lock-manager/ss2pl.cc: `lockmanager_regist`, `check_waitlist`, the operations of `Transaction` and a
-- round of `worker`, on a table that no other worker changes meanwhile. Keys are below 2^31, so that
-- `dup_check` may take them as `int`; `future_lock_` never holds a SLEEP.
use ccbench.Common.{
  ℕ, zero, suc, ◌+◌, Bool, true, false, if◌then◌else◌, ◌==◌, List, [], ◌∷◌, ◌++◌, Option, none,
  some,
}
use ccbench.Common.Family.{assign}
use ccbench.Rwlock.{RwLock, Turn, Outcome, again, done, r_trylock, w_trylock, r_unlock, w_unlock}
use ccbench.LockManager.Types.{Ope, read, write, sleep, Task, Table, State, set_lock, set_wait_list}

-- What `dup_check` returns: -1, 0 and 1.
pub data Access : Type 0 where
  first after_read after_write : Access

-- The first `upper` tasks, searched for the first access to `key`.
unfoldable pub dup_check : List Task → ℕ → ℕ → Access
dup_check [] key upper = first
dup_check (t ∷ ts) key zero = first
dup_check (t ∷ ts) key (suc upper) =
    if t.key == key
    then elim t.ope [ read ↦ after_read | write ↦ after_write | sleep ↦ dup_check ts key upper ]
    else dup_check ts key upper

unfoldable pub wait_add : Table → ℕ → ℕ → Table
wait_add t k tx_id = set_wait_list t k ((t k).wait_list ++ tx_id ∷ [])

-- The loop over `future_lock_` that turns a registered read into a write.
unfoldable pub upgrade_future : List Task → ℕ → List Task
upgrade_future [] key = []
upgrade_future (t ∷ ts) key =
    if t.key == key then record { ope = write; key = t.key } ∷ ts else t ∷ upgrade_future ts key

-- A first access: into the wait list, and into `future_lock_`.
abbrev add_lock : State → ℕ → Ope → ℕ → State
add_lock s tx_id ope key = record {
  table = wait_add s.table key tx_id;
  tx = record s.tx { future_lock = s.tx.future_lock ++ record { ope = ope; key = key } ∷ [] };
}

-- A round of the loop of `lockmanager_regist`.
unfoldable pub regist_task : State → ℕ → ℕ → Task → State
unfolding wait_add
regist_task s tx_id ope_pos item = elim item.ope [
  | read ↦ elim (dup_check s.tx.task_set item.key ope_pos) [
    | first ↦ add_lock s tx_id read item.key
    | after_read ↦ s
    | after_write ↦ s
  ]
  | write ↦ elim (dup_check s.tx.task_set item.key ope_pos) [
    | first ↦ add_lock s tx_id write item.key
    | after_read ↦ record s {
      tx = record s.tx { future_lock = upgrade_future s.tx.future_lock item.key };
    }
    | after_write ↦ s
  ]
  | sleep ↦ s
]

unfoldable pub regist_tasks : State → ℕ → ℕ → List Task → State
regist_tasks s tx_id ope_pos [] = s
regist_tasks s tx_id ope_pos (item ∷ items) =
    regist_tasks (regist_task s tx_id ope_pos item) tx_id (ope_pos + 1) items

unfoldable pub lockmanager_regist : State → ℕ → State
lockmanager_regist s tx_id = regist_tasks s tx_id 0 s.tx.task_set

-- The locks, from the value just loaded.
unfoldable pub r_try_lock : RwLock → Turn
r_try_lock l = r_trylock l l.counter

unfoldable pub w_try_lock : RwLock → Turn
w_try_lock l = w_trylock l l.counter

abbrev succeeds : Outcome → Bool
succeeds (again e) = false
succeeds (done b) = b

-- Whether `tx_id` is at the head; the source reads position 0 of a vector that then holds `tx_id`.
unfoldable pub is_head : List ℕ → ℕ → Bool
is_head [] tx_id = false
is_head (x ∷ xs) tx_id = tx_id == x

abbrev pub tail : List ℕ → List ℕ
tail [] = []
tail (x ∷ xs) = xs

-- A lock is taken: off the wait list.
abbrev take_lock : Table → ℕ → RwLock → Table
take_lock t k l = assign t k (record (t k) { lock = l; wait_list = tail (t k).wait_list })

-- A round of the inner loop of `check_waitlist`, and whether the element leaves `future_lock_`.
pub record Round : Type 0 where
  pub state : State
  pub erased : Bool

unfoldable pub check_item : State → ℕ → Task → Round
unfolding is_head r_try_lock w_try_lock
check_item s tx_id item =
    let tuple = s.table item.key in
    let r = r_try_lock tuple.lock in
    let w = w_try_lock tuple.lock in
    if is_head tuple.wait_list tx_id
    then elim item.ope [
      | read ↦
          if succeeds r.outcome
          then record {
            state = record {
              table = take_lock s.table item.key r.lock;
              tx = record s.tx { r_lock_list = s.tx.r_lock_list ++ item.key ∷ [] };
            };
            erased = true;
          }
          else record { state = s; erased = false }
      | write ↦
          if succeeds w.outcome
          then record {
            state = record {
              table = take_lock s.table item.key w.lock;
              tx = record s.tx { w_lock_list = s.tx.w_lock_list ++ item.key ∷ [] };
            };
            erased = true;
          }
          else record { state = s; erased = false }
      | sleep ↦ record { state = s; erased = false }
    ]
    else record { state = s; erased = false }

-- The inner loop of `check_waitlist` over the elements still to come, and those that stay.
pub record Pass : Type 0 where
  pub state : State
  pub kept : List Task

unfoldable pub check_items : State → ℕ → List Task → Pass
unfolding check_item
check_items s tx_id [] = record { state = s; kept = [] }
check_items s tx_id (item ∷ items) =
    let round = check_item s tx_id item in
    let pass = check_items round.state tx_id items in
    if round.erased then pass else record pass { kept = item ∷ pass.kept }

abbrev pub check_pass : State → ℕ → State
check_pass s tx_id =
    let pass = check_items s tx_id s.tx.future_lock in
    record pass.state { tx = record pass.state.tx { future_lock = pass.kept } }

abbrev is_empty : List Task → Bool
is_empty [] = true
is_empty (t ∷ ts) = false

-- The outer loop, for at most `fuel` rounds; `none` if it needs more.
unfoldable pub check_waitlist : ℕ → State → ℕ → Option State
unfolding check_items
check_waitlist zero s tx_id = if is_empty s.tx.future_lock then some s else none
check_waitlist (suc fuel) s tx_id =
    let rest = check_waitlist fuel (check_pass s tx_id) tx_id in
    if is_empty s.tx.future_lock then some s else rest

unfoldable pub read_key : State → ℕ → State
read_key s key = record s {
  tx = record s.tx {
    read_set = s.tx.read_set ++ record { key = key; value = (s.table key).value } ∷ [];
  };
}

unfoldable pub write_key : State → ℕ → State
write_key s key = record {
  table = assign s.table key (record (s.table key) { value = 100 });
  tx = record s.tx { write_set = s.tx.write_set ++ record { key = key; value = 100 } ∷ [] };
}

-- The loop of `worker` over the tasks, without the sleep.
unfoldable pub execute : State → List Task → State
unfolding read_key write_key
execute s [] = s
execute s (t ∷ ts) = elim t.ope [
  | read ↦ execute (read_key s t.key) ts
  | write ↦ execute (write_key s t.key) ts
  | sleep ↦ execute s ts
]

unfoldable pub unlock_reads : Table → List ℕ → Table
unlock_reads t [] = t
unlock_reads t (k ∷ ks) = unlock_reads (set_lock t k (r_unlock (t k).lock)) ks

unfoldable pub unlock_writes : Table → List ℕ → Table
unlock_writes t [] = t
unlock_writes t (k ∷ ks) = unlock_writes (set_lock t k (w_unlock (t k).lock)) ks

unfoldable pub commit : State → State
unfolding unlock_reads unlock_writes
commit s = record {
  table = unlock_writes (unlock_reads s.table s.tx.r_lock_list) s.tx.w_lock_list;
  tx = record s.tx { r_lock_list = []; w_lock_list = []; read_set = []; write_set = [] };
}

-- What `worker` does once it has its locks.
abbrev pub run_tasks : List Task → Option State → Option State
run_tasks tasks none = none
run_tasks tasks (some s) = some (commit (execute s tasks))

-- A round of `worker` for the transaction `tasks` with the id `tx_id`.
unfoldable pub run_transaction : ℕ → State → ℕ → List Task → Option State
unfolding lockmanager_regist check_waitlist execute commit
run_transaction fuel s tx_id tasks =
    let registered =
      lockmanager_regist (record s { tx = record s.tx { task_set = tasks } }) tx_id in
    run_tasks tasks (check_waitlist fuel registered tx_id)
