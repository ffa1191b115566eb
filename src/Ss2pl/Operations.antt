-- ===== src/Ss2pl/Operations.antt =====
-- ss2pl/transaction.cc: the operations of `TxExecutor`, built with `DLR1` (no-wait) as CMakeLists.txt
-- does, over the array `Table` (`MASSTREE_USE` 0), without `BACK_OFF` and `ADD_ANALYSIS`.
-- An operation makes one call of a lock, which `try_now` takes without interference; that no other
-- thread's access to the lock comes between its load and its compare-and-swap loses nothing, since a
-- turn that meets one changes nothing.
use ccbench.Common.{
  ℕ, suc, Bool, false, ◌||◌, ◌==◌, if◌then◌else◌, List, [], ◌∷◌, ◌++◌, contains, erase,
}
use ccbench.Common.Int.{ℤ}
use ccbench.Common.Family.{assign}
use ccbench.Rwlock.{
  RwLock, Outcome, again, done, Turn, r_trylock, r_unlock, w_trylock, w_unlock, tryupgrade,
}
use ccbench.Ss2pl.Types.{
  Payload, read, write, read_modify_write, Procedure, Tuple, Table, SetElement, in_flight, aborted,
  TxExecutor, keys,
}

pub record State : Type 0 where
  pub table : Table
  pub tx : TxExecutor

abbrev pub set_lock : Table → ℕ → RwLock → Table
set_lock t k l = assign t k (record { lock = l; val = (t k).val })

abbrev pub set_val : Table → ℕ → Payload → Table
set_val t k v = assign t k (record { lock = (t k).lock; val = v })

-- `searchReadSet` and `searchWriteSet`: whether an element has the key.
unfoldable pub search_read_set : TxExecutor → ℕ → Bool
search_read_set x key = contains key (keys x.read_set)

unfoldable pub search_write_set : TxExecutor → ℕ → Bool
search_write_set x key = contains key x.write_set

unfoldable pub begin : TxExecutor → TxExecutor
begin x = record x { status = in_flight }

abbrev pub abort_status : State → State
abort_status s = record { table = s.table; tx = record s.tx { status = aborted } }

-- Whether the turn of a `try` call returned true.
abbrev pub succeeded : Outcome → Bool
succeeded (done b) = b
succeeded (again e) = false

-- The turn of a `try` call on the lock of a tuple, from the counter's present value.
abbrev pub try_now : (RwLock → ℤ → Turn) → Tuple → Turn
try_now f t = f t.lock t.lock.counter

unfoldable pub read_key : State → ℕ → State
unfolding search_read_set search_write_set
read_key s key =
    if search_write_set s.tx key || search_read_set s.tx key
    then s
    else if succeeded turn.outcome
    then record {
      table = set_lock s.table key turn.lock;
      tx = record s.tx {
        r_lock_list = s.tx.r_lock_list ++ key ∷ [];
        read_set = s.tx.read_set ++ record { key = key; val = (s.table key).val } ∷ [];
      };
    }
    else abort_status s
  where
    turn : Turn
    turn = try_now r_trylock (s.table key)

-- `read_set_.erase(rItr)` at the first element with the key.
abbrev pub erase_key : ℕ → List SetElement → List SetElement
erase_key k [] = []
erase_key k (e ∷ es) = if e.key == k then es else e ∷ erase_key k es

-- The loop over `r_lock_list_`: the lock that was upgraded moves to the write lists, if it is found.
abbrev pub move_lock : TxExecutor → ℕ → TxExecutor
move_lock x key =
    if contains key x.r_lock_list
    then record x {
      write_set = x.write_set ++ key ∷ [];
      w_lock_list = x.w_lock_list ++ key ∷ [];
      r_lock_list = erase key x.r_lock_list;
    }
    else x

-- The branch of `write` and `readWrite` for a key of the read set.
unfoldable pub upgrade_read : State → ℕ → State
upgrade_read s key =
    if succeeded turn.outcome
    then record {
      table = set_lock s.table key turn.lock;
      tx = record (move_lock s.tx key) { read_set = erase_key key s.tx.read_set };
    }
    else abort_status s
  where
    turn : Turn
    turn = try_now tryupgrade (s.table key)

-- The branch for a key that the transaction has not touched; `load` is what `readWrite` does to
-- `return_val_` there.
unfoldable pub lock_write : (Payload → Payload → Payload) → State → ℕ → State
lock_write load s key =
    if succeeded turn.outcome
    then record {
      table = set_lock s.table key turn.lock;
      tx = record s.tx {
        return_val = load (s.table key).val s.tx.return_val;
        w_lock_list = s.tx.w_lock_list ++ key ∷ [];
        write_set = s.tx.write_set ++ key ∷ [];
      };
    }
    else abort_status s
  where
    turn : Turn
    turn = try_now w_trylock (s.table key)

unfoldable pub write_key : State → ℕ → State
unfolding search_read_set search_write_set upgrade_read lock_write
write_key s key =
    if search_write_set s.tx key
    then s
    else if search_read_set s.tx key
    then upgrade_read s key
    else lock_write (λ _ old. old) s key

unfoldable pub read_write_key : State → ℕ → State
unfolding search_read_set search_write_set upgrade_read lock_write
read_write_key s key =
    if search_write_set s.tx key
    then s
    else if search_read_set s.tx key
    then upgrade_read s key
    else lock_write (λ v _. v) s key

-- The dispatch on `ope_` in `worker`.
unfoldable pub execute : State → Procedure → State
unfolding read_key write_key read_write_key
execute s p = elim p.ope [
  | read ↦ read_key s p.key
  | write ↦ write_key s p.key
  | read_modify_write ↦ read_write_key s p.key
]

-- One round of each loop of `commit` and `unlockList`.
unfoldable pub store : Payload → Table → ℕ → Table
store v t k = set_val t k v

unfoldable pub unlock_read : Table → ℕ → Table
unlock_read t k = set_lock t k (r_unlock (t k).lock)

unfoldable pub unlock_write : Table → ℕ → Table
unlock_write t k = set_lock t k (w_unlock (t k).lock)

abbrev pub for_each : (Table → ℕ → Table) → List ℕ → Table → Table
for_each f [] t = t
for_each f (k ∷ ks) t = for_each f ks (f t k)

unfoldable pub unlock_list : State → State
unfolding unlock_read unlock_write
unlock_list s = record {
  table = for_each unlock_write s.tx.w_lock_list (for_each unlock_read s.tx.r_lock_list s.table);
  tx = record s.tx { r_lock_list = []; w_lock_list = [] };
}

abbrev pub clear_sets : TxExecutor → TxExecutor
clear_sets x = record x { read_set = []; write_set = [] }

unfoldable pub commit : State → State
unfolding unlock_list store
commit s =
    let stored = for_each (store s.tx.write_val) s.tx.write_set s.table in
    let unlocked = unlock_list (record s { table = stored }) in
    record unlocked { tx = clear_sets unlocked.tx }

unfoldable pub abort : State → State
unfolding unlock_list
abort s =
    let unlocked = unlock_list s in
    record unlocked {
      tx = record (clear_sets unlocked.tx) {
        local_abort_counts = suc unlocked.tx.local_abort_counts;
      };
    }
