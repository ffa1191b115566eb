-- ===== src/Tictoc/Operations.antt =====
-- tictoc/transaction.cc: the operations of `TxExecutor`, cut where another worker can come between, over
-- the array `Table` (`MASSTREE_USE` 0), with `PREEMPTIVE_ABORTS` and `NO_WAIT_LOCKING_IN_VALIDATION`,
-- and without `BACK_OFF`, `ADD_ANALYSIS` and `SLEEP_READ_PHASE`. The flag `timestamp_history` is
-- `TIMESTAMP_HISTORY`.
use ccbench.Common.{
  ℕ, ◌+◌, ◌-◌, ◌%◌, ◌^◌, Bool, true, false, ◌&&◌, ◌==◌, ltb, leb, not, if◌then◌else◌, List, [], ◌∷◌,
  ◌++◌, contains,
}
use ccbench.Common.Family.{assign}
use ccbench.Common.Sort.{sort}
use ccbench.Procedure.{Payload}
use ccbench.Tictoc.Types.{
  TsWord, rts, obj, Table, SetElement, WriteElement, in_flight, aborted, TxExecutor, read_keys,
  write_keys,
}

unfoldable pub search_read_set : TxExecutor → ℕ → Bool
search_read_set x key = contains key (read_keys x.read_set)

unfoldable pub search_write_set : TxExecutor → ℕ → Bool
search_write_set x key = contains key (write_keys x.write_set)

-- `std::max`.
abbrev pub max : ℕ → ℕ → ℕ
max a b = if ltb a b then b else a

unfoldable pub begin : TxExecutor → TxExecutor
begin x = record x { status = in_flight; commit_ts = 0; appro_commit_ts = 0 }

unfoldable pub preemptive_aborts : TxExecutor → TsWord → Bool
preemptive_aborts x v1 = ltb (rts v1) x.appro_commit_ts

abbrev pub abort_status : TxExecutor → TxExecutor
abort_status x = record x { status = aborted }

-- `v1 == v2 && !v1.lock`, after the payload has been copied.
unfoldable pub same_word : TsWord → TsWord → Bool
same_word v1 v2 = (obj v1 == obj v2) && not v1.lock

-- The end of `read`.
unfoldable pub add_read : TxExecutor → ℕ → TsWord → TxExecutor
add_read x key v1 = record x {
  appro_commit_ts = max x.appro_commit_ts v1.wts;
  read_set = x.read_set ++ record { key = key; val = x.return_val; tsw = v1 } ∷ [];
}

unfoldable pub write_key : Table → TxExecutor → ℕ → TxExecutor
unfolding search_write_set
write_key t x key = if search_write_set x key then x else record x {
  appro_commit_ts = max x.appro_commit_ts (rts (t key).tsw + 1);
  write_set = x.write_set ++ record { key = key; tsw = (t key).tsw } ∷ [];
}

-- The beginning of `lockWriteSet`.
unfoldable pub sort_write_set : TxExecutor → TxExecutor
sort_write_set x = record x { write_set = sort (λ (w : WriteElement). w.key) x.write_set }

abbrev pub set_word : Table → ℕ → TsWord → Table
set_word t k v = assign t k (record (t k) { tsw = v })

abbrev pub set_lock : Table → ℕ → Bool → Table
set_lock t k b = set_word t k (record (t k).tsw { lock = b })

-- A round of `lockWriteSet` that finds the tuple free.
unfoldable pub lock_tuple : Table → ℕ → Table
lock_tuple t k = set_lock t k true

unfoldable pub raise_for_write : Table → TxExecutor → ℕ → TxExecutor
raise_for_write t x k = record x { commit_ts = max x.commit_ts (rts (t k).tsw + 1) }

-- A round of `unlockWriteSet`.
unfoldable pub unlock_tuple : Table → ℕ → Table
unlock_tuple t k = set_lock t k false

-- Step 2 of `validationPhase`.
abbrev pub newest : List SetElement → ℕ → ℕ
newest [] c = c
newest (e ∷ es) c = newest es (max c e.tsw.wts)

unfoldable pub raise_for_reads : TxExecutor → TxExecutor
raise_for_reads x = record x { commit_ts = newest x.read_set x.commit_ts }

-- What a round of step 3 does: on to the next element, with the tuple left alone or extended, or out.
pub data Check : Type 0 where
  passes extends fails : Check

-- A round of step 3 for an element, with the words of its tuple.
unfoldable pub check_read : Bool → Table → TxExecutor → SetElement → Check
unfolding search_write_set
check_read timestamp_history t x e =
    let v1 = (t e.key).tsw in
    let pre_v1 = (t e.key).pre_tsw in
    let in_w = search_write_set x e.key in
    if leb x.commit_ts (rts e.tsw)
    then passes
    else if not (e.tsw.wts == v1.wts)
    then if timestamp_history && leb pre_v1.wts x.commit_ts && ltb x.commit_ts v1.wts
      then passes
      else fails
    else if ltb (rts v1) x.commit_ts && v1.lock && not in_w
    then fails
    else if in_w
    then passes
    else if ltb (rts v1) x.commit_ts
    then extends
    else passes

-- `v2`: the delta that does not fit 15 bits moves `wts` on.
unfoldable pub extended : TsWord → ℕ → TsWord
extended v1 commit_ts =
    let delta = commit_ts - v1.wts in
    let shift = delta - delta % 2 ^ 15 in
    record v1 { wts = (v1.wts + shift) % 2 ^ 48; delta = (delta - shift) % 2 ^ 15 }

unfoldable pub extend_tuple : Table → ℕ → ℕ → Table
unfolding extended
extend_tuple t k commit_ts = set_word t k (extended (t k).tsw commit_ts)

-- A round of `writePhase`: the payload, and then the words.
unfoldable pub store_payload : Table → ℕ → Payload → Table
store_payload t k v = assign t k (record (t k) { val = v })

unfoldable pub store_word : Bool → Table → WriteElement → ℕ → Table
store_word timestamp_history t w commit_ts = assign t w.key (record (t w.key) {
  tsw = record { lock = false; delta = 0; wts = commit_ts % 2 ^ 48 };
  pre_tsw = if timestamp_history then w.tsw else (t w.key).pre_tsw;
})

unfoldable pub clear_sets : TxExecutor → TxExecutor
clear_sets x = record x { read_set = []; write_set = [] }
