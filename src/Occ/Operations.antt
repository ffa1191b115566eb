-- ===== src/Occ/Operations.antt =====
-- occ/transaction.cc: the state that the workers share, and the operations of `TxnExecutor`, over the
-- array `Table` (`MASSTREE_USE` 0), without `WAL`, `BACK_OFF` and `ADD_ANALYSIS`.
use ccbench.Common.{
  ℕ, zero, suc, ◌+◌, ◌-◌, ◌%◌, ◌^◌, Bool, true, false, ◌||◌, ◌&&◌, ltb, leb, if◌then◌else◌, List,
  [], ◌∷◌, ◌++◌, map, Option, none, some, contains, length, drop,
}
use ccbench.Common.Family.{assign}
use ccbench.Rwlock.{RwLock}
use ccbench.Serial.{SetElement}
use ccbench.Procedure.{Payload, read, write, read_modify_write, Procedure}

abbrev pub ReadElement : Type 0
ReadElement = SetElement

-- A write set is the list of its keys: its elements have no payload.
abbrev pub WriteSet : Type 0
WriteSet = List ℕ

pub record TxnExecutor : Type 0 where
  pub read_set : List ReadElement
  pub write_set : WriteSet
  pub start_tx_id : ℕ
  pub write_val : Payload

-- The globals `txId`, `ws_list`, `deletedTxId` (a uint64_t, -1 at first), `progress`, `global_lock` and
-- `Table`.
pub record Shared : Type 0 where
  pub tx_id : ℕ
  pub ws_list : List WriteSet
  pub deleted_tx_id : ℕ
  pub progress : ℕ → ℕ
  pub global_lock : RwLock
  pub table : ℕ → Payload

abbrev pub keys : List ReadElement → List ℕ
keys = map λ e. e.key

unfoldable pub search_read_set : TxnExecutor → ℕ → Bool
search_read_set x key = contains key (keys x.read_set)

unfoldable pub search_write_set : TxnExecutor → ℕ → Bool
search_write_set x key = contains key x.write_set

unfoldable pub begin : Shared → TxnExecutor → TxnExecutor
begin s x = record x { start_tx_id = s.tx_id }

unfoldable pub read_key : Shared → TxnExecutor → ℕ → TxnExecutor
unfolding search_read_set search_write_set
read_key s x key =
    if search_read_set x key || search_write_set x key
    then x
    else record x { read_set = x.read_set ++ record { key = key; val = s.table key } ∷ [] }

unfoldable pub write_key : TxnExecutor → ℕ → TxnExecutor
unfolding search_write_set
write_key x key =
    if search_write_set x key then x else record x { write_set = x.write_set ++ key ∷ [] }

-- The dispatch on `ope_` in `worker`.
unfoldable pub execute : Shared → TxnExecutor → Procedure → TxnExecutor
unfolding read_key write_key
execute s x p = elim p.ope [
  | read ↦ read_key s x p.key
  | write ↦ write_key x p.key
  | read_modify_write ↦ write_key (read_key s x p.key) p.key
]

abbrev pub u64 : ℕ
u64 = 2 ^ 64

-- `deletedTxId + 1` as a uint64_t: the id of the transaction whose write set is `ws_list[0]`.
abbrev pub base : Shared → ℕ
base s = (s.deleted_tx_id + 1) % u64

-- `int i = id - (deletedTxId + 1)`: the difference as a uint64_t, cut to 32 bits.
abbrev pub index_of : Shared → ℕ → ℕ
index_of s id = (id + u64 - base s) % 2 ^ 32

-- An `int` with this bit pattern is negative.
abbrev pub is_negative : ℕ → Bool
is_negative i = leb (2 ^ 31) i

-- The two inner loops of `validationPhase`: whether a key that was read is in the write set.
abbrev pub overlaps : List ℕ → WriteSet → Bool
overlaps [] ws = false
overlaps (k ∷ ks) ws = if contains k ws then true else overlaps ks ws

-- The outer loop, for `rounds` values of `i`, from the element that `ws` begins with. `none` is a read
-- past the end of `ws_list`.
unfoldable pub check : List ℕ → ℕ → List WriteSet → Option Bool
check ks zero ws = some true
check ks (suc rounds) [] = none
check ks (suc rounds) (w ∷ ws) = if overlaps ks w then some false else check ks rounds ws

-- The loop from `begin` to `end`. With an empty read set no element of `ws_list` is read. A negative
-- `begin` reads before its start.
unfoldable pub validate : List ℕ → (begin_ end_ : ℕ) → List WriteSet → Option Bool
validate [] begin_ end_ ws = some true
validate (k ∷ ks) begin_ end_ ws =
    if is_negative begin_
    then if is_negative end_ && leb end_ begin_ then some true else none
    else if is_negative end_
    then some true
    else check (k ∷ ks) (end_ - begin_) (drop begin_ ws)

unfoldable pub validation_phase : Shared → TxnExecutor → Option Bool
validation_phase s x =
    validate (keys x.read_set) (index_of s x.start_tx_id) (index_of s s.tx_id) s.ws_list

-- `*min_element(progress.begin(), progress.end())`, for `n` threads.
unfoldable pub slowest : ℕ → (ℕ → ℕ) → ℕ
slowest zero f = 0
slowest (suc zero) f = f 0
slowest (suc (suc n)) f = let m = slowest (suc n) f in if ltb (f (suc n)) m then f (suc n) else m

-- `numTxnsDeleted`, the difference as a uint64_t cut to an `int`.
abbrev pub deletions : ℕ → Shared → ℕ
deletions n s = (slowest n s.progress + u64 - s.deleted_tx_id) % 2 ^ 32

unfoldable pub gc : ℕ → ℕ → Shared → Shared
gc threshold n s =
    if ltb threshold (length s.ws_list) && ltb 0 (deletions n s) && ltb (deletions n s) (2 ^ 31)
    then record s { ws_list = drop (deletions n s) s.ws_list; deleted_tx_id = slowest n s.progress }
    else s

-- One round of the loop of `writePhase`, and the rest of it.
unfoldable pub store : Payload → Shared → ℕ → Shared
store v s k = record s { table = assign s.table k v }

unfoldable pub publish : ℕ → ℕ → ℕ → Shared → TxnExecutor → Shared
unfolding gc
publish threshold n thid s x = gc threshold n (record s {
  ws_list = s.ws_list ++ x.write_set ∷ [];
  progress = assign s.progress thid s.tx_id;
  tx_id = s.tx_id + 1;
})

-- The read and the write set are cleared by `writePhase` and by `abort`.
unfoldable pub clear_sets : TxnExecutor → TxnExecutor
clear_sets x = record x { read_set = []; write_set = [] }
