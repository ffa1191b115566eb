-- ===== src/Silo/Operations.antt =====
-- silo/transaction.cc: the operations of `TxnExecutor`, each from a table that no other worker changes
-- meanwhile, in the build with `NO_WAIT_LOCKING_IN_VALIDATION` over the array `Table` (`MASSTREE_USE`
-- 0), without `WAL`, `BACK_OFF`, `ADD_ANALYSIS` and `SLEEP_READ_PHASE`.
use ccbench.Common.{
  ℕ, Bool, true, false, ◌||◌, ◌&&◌, ◌==◌, if◌then◌else◌, List, [], ◌∷◌, ◌++◌, map, Option, none,
  some, contains, length, drop,
}
use ccbench.Common.Family.{assign}
use ccbench.Common.Sort.{sort}
use ccbench.Procedure.{Payload}
use ccbench.Silo.Tidword.{Tidword, zero_word, max_word, choose_tid}

pub record Tuple : Type 0 where
  pub tidword : Tidword
  pub val : Payload

abbrev pub Table : Type 0
Table = ℕ → Tuple

pub record ReadElement : Type 0 where
  pub key : ℕ
  pub val : Payload
  pub tidword : Tidword

-- An empty `val` stands for the payload `write_val_` of the worker.
pub record WriteElement : Type 0 where
  pub key : ℕ
  pub val : Payload

pub data TransactionStatus : Type 0 where
  in_flight committed aborted : TransactionStatus

-- With the worker's own `ThLocalEpoch[thid_]`. `return_val_` is left out: it is what the newest element
-- of the read set holds.
pub record TxnExecutor : Type 0 where
  pub read_set : List ReadElement
  pub write_set : List WriteElement
  pub status : TransactionStatus
  pub mrctid : Tidword
  pub max_rset : Tidword
  pub max_wset : Tidword
  pub write_val : Payload
  pub local_epoch : ℕ

abbrev pub read_keys : List ReadElement → List ℕ
read_keys = map λ e. e.key

abbrev pub write_keys : List WriteElement → List ℕ
write_keys = map λ e. e.key

unfoldable pub begin : TxnExecutor → TxnExecutor
begin x = record x { status = in_flight; max_wset = zero_word; max_rset = zero_word }

unfoldable pub abort : TxnExecutor → TxnExecutor
abort x = record x { read_set = []; write_set = [] }

unfoldable pub search_read_set : TxnExecutor → ℕ → Bool
search_read_set x key = contains key (read_keys x.read_set)

unfoldable pub search_write_set : TxnExecutor → ℕ → Bool
search_write_set x key = contains key (write_keys x.write_set)

-- `none` while the tuple is locked: then the loop goes on.
unfoldable pub read_key : Table → TxnExecutor → ℕ → Option TxnExecutor
unfolding search_read_set search_write_set
read_key t x key =
    if search_read_set x key || search_write_set x key
    then some x
    else if (t key).tidword.lock
    then none
    else some (record x {
      read_set =
          x.read_set ++ record { key = key; val = (t key).val; tidword = (t key).tidword } ∷ [];
    })

unfoldable pub write_key : TxnExecutor → ℕ → Payload → TxnExecutor
unfolding search_write_set
write_key x key val =
    if search_write_set x key
    then x
    else record x { write_set = x.write_set ++ record { key = key; val = val } ∷ [] }

abbrev pub set_lock : Bool → Tuple → Tuple
set_lock b v = record v { tidword = record v.tidword { lock = b } }

-- `unlockWriteSet`, of all elements or of those before `end`.
unfoldable pub unlock_write_set : List WriteElement → Table → Table
unlock_write_set [] t = t
unlock_write_set (w ∷ ws) t = unlock_write_set ws (assign t w.key (set_lock false (t w.key)))

pub record Locked : Type 0 where
  pub table : Table
  pub max_wset : Tidword
  pub success : Bool

-- The loop of `lockWriteSet`, after the elements `before`.
unfoldable pub lock_write_set : (before todo : List WriteElement) → Table → Tidword → Locked
unfolding unlock_write_set
lock_write_set before [] t m = record { table = t; max_wset = m; success = true }
lock_write_set before (w ∷ ws) t m =
    let rest =
      lock_write_set (before ++ w ∷ []) ws (assign t w.key (set_lock true (t w.key)))
        (max_word m (t w.key).tidword) in
    if (t w.key).tidword.lock
    then record { table = unlock_write_set before t; max_wset = m; success = false }
    else rest

-- The two tests of phase 2 on an element of the read set.
unfoldable pub is_current : Table → List WriteElement → ReadElement → Bool
is_current t ws e =
    (e.tidword.epoch == (t e.key).tidword.epoch)
    && (e.tidword.tid == (t e.key).tidword.tid)
    && (if (t e.key).tidword.lock then contains e.key (write_keys ws) else true)

-- The loop of phase 2: the tests, and `max_rset_`.
unfoldable pub all_current : Table → List WriteElement → List ReadElement → Bool
unfolding is_current
all_current t ws [] = true
all_current t ws (e ∷ es) = if is_current t ws e then all_current t ws es else false

unfoldable pub newest_read : Table → List WriteElement → List ReadElement → Tidword → Tidword
unfolding is_current
newest_read t ws [] m = m
newest_read t ws (e ∷ es) m =
    if is_current t ws e then newest_read t ws es (max_word m (t e.key).tidword) else m

-- `std::sort` of the write set, whose operator< compares the keys.
abbrev pub by_key : List WriteElement → List WriteElement
by_key = sort (λ (w : WriteElement). w.key)

pub record Validated : Type 0 where
  pub table : Table
  pub tx : TxnExecutor
  pub valid : Bool

abbrev pub after_reads : Bool → Table → TxnExecutor → Validated
after_reads true t x = record { table = t; tx = record x { status = committed }; valid = true }
after_reads false t x = record {
  table = unlock_write_set x.write_set t;
  tx = record x { status = aborted };
  valid = false;
}

abbrev pub after_locks : ℕ → Locked → TxnExecutor → Validated
after_locks global_epoch l x =
    let y = record x {
      max_wset = l.max_wset;
      max_rset = newest_read l.table x.write_set x.read_set x.max_rset;
      local_epoch = global_epoch;
    } in
    if l.success
    then after_reads (all_current l.table x.write_set x.read_set) l.table y
    else record {
      table = l.table;
      tx = record x { max_wset = l.max_wset; status = aborted };
      valid = false;
    }

-- For the value of `GlobalEpoch` that phase 1 ends with.
unfoldable pub validation_phase : ℕ → Table → TxnExecutor → Validated
unfolding lock_write_set all_current newest_read
validation_phase global_epoch t x =
    let y = record x { write_set = by_key x.write_set } in
    after_locks global_epoch (lock_write_set [] y.write_set t x.max_wset) y

-- `memcpy` of an element's own payload, which may be shorter, or of `write_val_`.
abbrev pub stored : Payload → Payload → Payload → Payload
stored write_val [] old = write_val
stored write_val (b ∷ bs) old = (b ∷ bs) ++ drop (length (b ∷ bs)) old

-- The loop of `writePhase`: the payload, and then the TID word, which unlocks the tuple.
unfoldable pub write_all : Payload → Tidword → List WriteElement → Table → Table
write_all write_val c [] t = t
write_all write_val c (w ∷ ws) t =
    write_all write_val c ws
      (assign t w.key (record { tidword = c; val = stored write_val w.val (t w.key).val }))

pub record Written : Type 0 where
  pub table : Table
  pub tx : TxnExecutor

unfoldable pub write_phase : Table → TxnExecutor → Written
unfolding write_all choose_tid
write_phase t x =
    let c = choose_tid x.max_wset x.max_rset x.mrctid x.local_epoch in
    record {
      table = write_all x.write_val c x.write_set t;
      tx = record x { mrctid = c; read_set = []; write_set = [] };
    }
