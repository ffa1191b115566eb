-- ===== src/Silo/Workers.antt =====
-- silo/silo.cc: the loop of `worker`, for workers that run at once, and `leaderWork` of silo/util.cc,
-- which worker 0 may call between transactions. Each load of a word or an epoch, each copy of a payload,
-- each compare-and-swap that succeeds and each store is a step; a load and the compare-and-swap that finds
-- the word unchanged are one, and so is a load on which the worker only decides. A failed
-- compare-and-swap only loads the word again. Only worker 0 writes `GlobalEpoch`, so its load and its
-- compare-and-swap in `atomicAddGE` are one.
use ccbench.Common.{
  ℕ, suc, Bool, true, false, ◌||◌, ◌==◌, ltb, if◌then◌else◌, List, [], ◌∷◌, ◌++◌, map, Option, none,
  some,
}
use ccbench.Common.Family.{assign}
use ccbench.Procedure.{Payload, read, write, read_modify_write, Procedure}
use ccbench.Serial
use ccbench.Serial.{Commit}
use ccbench.Timestamps.History.{Stamped}
use ccbench.Silo.Tidword.{Tidword, obj, max_word, choose_tid}
use ccbench.Silo.Operations.{
  Table, ReadElement, WriteElement, committed, aborted, TxnExecutor, write_keys, begin, abort,
  search_read_set, search_write_set, write_key, set_lock, is_current, by_key, stored,
}

-- Between transactions; in `chkEpochLoaded`, before the epoch of worker `thread`; before the operations
-- `todo`; in `read`, at the top of its loop or after the copy of the payload `val`, `write_next` if `write`
-- follows; before that `write`; in `lockWriteSet`; with `GlobalEpoch` loaded; in phase 2 of the
-- validation; in `unlockWriteSet`, which an abort follows; in `writePhase`, before the payload or the word
-- of the first element of `rest`.
pub data Phase : Type 0 where
  idle : Phase
  leading : (thread nowepo : ℕ) → Phase
  running : (todo : List Procedure) → Phase
  reading : (key : ℕ) (write_next : Bool) (todo : List Procedure) (expected : Tidword) → Phase
  copied :
      (key : ℕ) (write_next : Bool) (todo : List Procedure) (expected : Tidword) (val : Payload)
      → Phase
  writing : (key : ℕ) (todo : List Procedure) → Phase
  locking : (locked rest : List WriteElement) → Phase
  fenced : (epoch : ℕ) → Phase
  validating : (checked rest : List ReadElement) → Phase
  unlocking : (rest : List WriteElement) → Phase
  storing : (rest : List WriteElement) → Phase
  releasing : (rest : List WriteElement) → Phase

-- `ticket` is not in the source: the number of the step at which the worker had all its locks.
pub record Worker : Type 0 where
  pub tx : TxnExecutor
  pub phase : Phase
  pub ticket : ℕ
  pub local_commit_counts : ℕ
  pub local_abort_counts : ℕ

-- Not in the source: the tickets of the last transaction that has stored to a tuple, and of the newest
-- that has found it unchanged and free.
pub record Stamps : Type 0 where
  pub wts : ℕ
  pub rts : ℕ

pub record Shared : Type 0 where
  pub table : Table
  pub global_epoch : ℕ
  pub stamps : ℕ → Stamps

pub record Progress : Type 0 where
  pub shared : Shared
  pub worker : Worker
  pub logged : Option Stamped

abbrev pub moves : Shared → Worker → Progress
moves g w = record { shared = g; worker = w; logged = none }

abbrev pub goes_to : Shared → Worker → Phase → Progress
goes_to g w ph = moves g (record w { phase = ph })

-- `abort`, and back to the start.
abbrev pub aborts : Worker → Worker
aborts w = record w { tx = abort w.tx; phase = idle; local_abort_counts = suc w.local_abort_counts }

-- A round of the loop of `chkEpochLoaded` among `n` threads, and then `atomicAddGE`.
abbrev pub leads_on : ℕ → (ℕ → ℕ) → ℕ → ℕ → Shared → Worker → Progress
leads_on n epochs thread nowepo g w =
    if ltb thread n
    then if epochs thread == nowepo
      then goes_to g w (leading (suc thread) nowepo)
      else goes_to g w idle
    else goes_to (record g { global_epoch = suc g.global_epoch }) w idle

abbrev pub after_read : Worker → TxnExecutor → ℕ → Bool → List Procedure → Worker
after_read w x key true todo = record w { tx = x; phase = writing key todo }
after_read w x key false todo = record w { tx = x; phase = running todo }

-- The call of `read`, up to the first load.
abbrev pub calls_read : Table → Worker → ℕ → Bool → List Procedure → Worker
calls_read t w key write_next todo =
    if search_read_set w.tx key || search_write_set w.tx key
    then after_read w w.tx key write_next todo
    else record w { phase = reading key write_next todo (t key).tidword }

-- The top of the loop of `read`: a locked word is loaded again.
abbrev pub turns : Table → Worker → ℕ → Bool → List Procedure → Tidword → Worker
turns t w key write_next todo expected =
    if expected.lock
    then record w { phase = reading key write_next todo (t key).tidword }
    else record w { phase = copied key write_next todo expected (t key).val }

abbrev pub add_read : TxnExecutor → ℕ → Tidword → Payload → TxnExecutor
add_read x key expected val = record x {
  read_set = x.read_set ++ record { key = key; val = val; tidword = expected } ∷ [];
}

-- The second load of `read`.
abbrev pub compares : Table → Worker → ℕ → Bool → List Procedure → Tidword → Payload → Worker
compares t w key write_next todo expected val =
    if obj expected == obj (t key).tidword
    then after_read w (add_read w.tx key expected val) key write_next todo
    else record w { phase = reading key write_next todo (t key).tidword }

abbrev pub starts_operation : Table → Worker → Procedure → List Procedure → Worker
starts_operation t w p todo = elim p.ope [
  | read ↦ calls_read t w p.key false todo
  | write ↦ record w { phase = writing p.key todo }
  | read_modify_write ↦ calls_read t w p.key true todo
]

abbrev pub set_word : Shared → ℕ → Tidword → Shared
set_word g k v = record g { table = assign g.table k (record (g.table k) { tidword = v }) }

-- A round of `lockWriteSet`: if the tuple is locked, the elements before it are unlocked.
abbrev pub locks : Shared → Worker → List WriteElement → WriteElement → List WriteElement → Progress
locks g w done e rest =
    if (g.table e.key).tidword.lock
    then goes_to g (record w { tx = record w.tx { status = aborted } }) (unlocking done)
    else goes_to (record g { table = assign g.table e.key (set_lock true (g.table e.key)) })
        (record w {
          tx = record w.tx { max_wset = max_word w.tx.max_wset (g.table e.key).tidword };
        })
        (locking (done ++ e ∷ []) rest)

abbrev pub max : ℕ → ℕ → ℕ
max a b = if ltb a b then b else a

-- `rts` of a tuple that has been found free.
abbrev pub seen : Shared → ℕ → ℕ → Shared
seen g k ticket = if (g.table k).tidword.lock then g else record g {
  stamps = assign g.stamps k (record (g.stamps k) { rts = max (g.stamps k).rts ticket });
}

-- A round of phase 2 of the validation.
abbrev pub checks : Shared → Worker → List ReadElement → ReadElement → List ReadElement → Progress
checks g w checked e rest =
    if is_current g.table w.tx.write_set e
    then goes_to (seen g e.key w.ticket)
        (record w {
          tx = record w.tx { max_rset = max_word w.tx.max_rset (g.table e.key).tidword };
        })
        (validating (checked ++ e ∷ []) rest)
    else goes_to g (record w { tx = record w.tx { status = aborted } }) (unlocking w.tx.write_set)

abbrev pub found : ReadElement → Serial.SetElement
found e = record { key = e.key; val = e.val }

-- What a validated transaction has read and writes.
abbrev pub commit_of : TxnExecutor → Commit
commit_of x = record {
  reads = map found x.read_set;
  writes = write_keys x.write_set;
  val = x.write_val;
}

-- The end of the validation, and the choice of the TID.
abbrev pub decides : Worker → Worker
decides w = record w {
  tx = record w.tx {
    status = committed;
    mrctid = choose_tid w.tx.max_wset w.tx.max_rset w.tx.mrctid w.tx.local_epoch;
  };
  phase = storing w.tx.write_set;
}

abbrev pub decision : Shared → Worker → Progress
decision g w = record {
  shared = g;
  worker = decides w;
  logged = some (record { ts = w.ticket; commit = commit_of w.tx });
}

-- A round of `writePhase`: the payload, and then the word.
abbrev pub store_payload : Shared → Payload → WriteElement → Shared
store_payload g write_val e = record g {
  table =
      assign g.table e.key
        (record (g.table e.key) { val = stored write_val e.val (g.table e.key).val });
}

abbrev pub store_word : Shared → ℕ → Tidword → ℕ → Shared
store_word g k c ticket = record (set_word g k c) {
  stamps = assign g.stamps k (record { wts = ticket; rts = ticket });
}

-- One of `n` workers, at the step `clock`, with the local epochs of all.
unfoldable pub proceed : (n clock : ℕ) → (ℕ → ℕ) → Phase → Shared → Worker → Progress
unfolding begin abort search_read_set search_write_set write_key is_current max_word choose_tid obj
proceed n clock epochs idle g w = goes_to g w idle
proceed n clock epochs (leading thread nowepo) g w = leads_on n epochs thread nowepo g w
proceed n clock epochs (running []) g w =
    goes_to g (record w { tx = record w.tx { write_set = by_key w.tx.write_set } })
      (locking [] (by_key w.tx.write_set))
proceed n clock epochs (running (p ∷ todo)) g w = moves g (starts_operation g.table w p todo)
proceed n clock epochs (reading key b todo v) g w = moves g (turns g.table w key b todo v)
proceed n clock epochs (copied key b todo v val) g w = moves g (compares g.table w key b todo v val)
proceed n clock epochs (writing key todo) g w =
    moves g (record w { tx = write_key w.tx key []; phase = running todo })
proceed n clock epochs (locking done (e ∷ rest)) g w = locks g w done e rest
proceed n clock epochs (locking done []) g w =
    goes_to g (record w { ticket = suc clock }) (fenced g.global_epoch)
proceed n clock epochs (fenced epoch) g w =
    goes_to g (record w { tx = record w.tx { local_epoch = epoch } }) (validating [] w.tx.read_set)
proceed n clock epochs (validating checked (e ∷ rest)) g w = checks g w checked e rest
proceed n clock epochs (validating checked []) g w = decision g w
proceed n clock epochs (unlocking (e ∷ rest)) g w =
    goes_to (record g { table = assign g.table e.key (set_lock false (g.table e.key)) }) w
      (unlocking rest)
proceed n clock epochs (unlocking []) g w = moves g (aborts w)
proceed n clock epochs (storing (e ∷ rest)) g w =
    goes_to (store_payload g w.tx.write_val e) w (releasing (e ∷ rest))
proceed n clock epochs (storing []) g w = moves g (record w {
  tx = record w.tx { read_set = []; write_set = [] };
  phase = idle;
  local_commit_counts = suc w.local_commit_counts;
})
proceed n clock epochs (releasing (e ∷ rest)) g w =
    goes_to (store_word g e.key w.tx.mrctid w.ticket) w (storing rest)
proceed n clock epochs (releasing []) g w = goes_to g w (storing [])

unfoldable pub start : Worker → List Procedure → Worker
unfolding begin
start w todo = record w { tx = begin w.tx; phase = running todo }
