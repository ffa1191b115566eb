-- ===== src/Si/Workers.antt =====
-- si/si.cc and si/transaction.cc: the loop of `worker`, for workers that run at once, in the build with
-- CCTR_ON, or with CCTR_TW where `cctr_on` is false. Each load, each store and each compare-and-swap on
-- what others see is a step, together with the tests on what was loaded. The garbage collection, which
-- reuses versions, is left out.
use ccbench.Common.{
  ℕ, suc, ◌+◌, ◌%◌, ◌^◌, Bool, true, false, ◌||◌, ◌==◌, ltb, leb, if◌then◌else◌, List, [], ◌∷◌,
  ◌++◌, Option, none, some,
}
use ccbench.Common.Family.{assign}
use ccbench.Procedure.{read, write, read_modify_write, Procedure}
use ccbench.Si.Types
use ccbench.Si.Types.{
  VersionStatus, Version, Tuple, Shared, SetElement, TxExecutor, search_read_set, search_write_set,
  version, set_version, publish,
}

-- Between transactions; in `tbegin`, before the `lastcstamp_` of thread `i`; before the operations `todo`;
-- in `tread`, with `latest_` loaded, with a version that is committed, before the copy of its payload, and
-- `write_next` if `twrite` follows; before that `twrite`, and in it, with `latest_` loaded as `expected`,
-- before the `cstamp_` of an `expected` in flight, in the loop for `vertmp`, before its `cstamp_`, and
-- before the compare-and-swap; in `commit`, before the three stores to an element, and before that to
-- `lastcstamp_`; in `abort`. `faulted` is ERR, or the null pointer where `tread` does not test for it.
pub data Phase : Type 0 where
  idle : Phase
  beginning : (i : ℕ) (todo : List Procedure) → Phase
  running : (todo : List Procedure) → Phase
  loaded : (key : ℕ) (write_next : Bool) (todo : List Procedure) (ver : ℕ) → Phase
  searching : (key : ℕ) (write_next : Bool) (todo : List Procedure) (ver : ℕ) → Phase
  copying : (key : ℕ) (write_next : Bool) (todo : List Procedure) (ver : ℕ) → Phase
  writing : (key : ℕ) (todo : List Procedure) → Phase
  examining : (key : ℕ) (todo : List Procedure) (expected : ℕ) → Phase
  conflicting : (key : ℕ) (todo : List Procedure) (expected : ℕ) → Phase
  climbing : (key : ℕ) (todo : List Procedure) (expected vertmp : ℕ) → Phase
  testing : (key : ℕ) (todo : List Procedure) (expected vertmp : ℕ) → Phase
  linking : (key : ℕ) (todo : List Procedure) (expected vertmp : ℕ) → Phase
  stamping : (rest : List SetElement) → Phase
  paying : (rest : List SetElement) → Phase
  releasing : (rest : List SetElement) → Phase
  ending : Phase
  aborting : (rest : List SetElement) → Phase
  faulted : Phase

pub record Worker : Type 0 where
  pub tx : TxExecutor
  pub phase : Phase
  pub local_commit_counts : ℕ
  pub local_abort_counts : ℕ

pub record Progress : Type 0 where
  pub shared : Shared
  pub worker : Worker

abbrev pub goes_to : Shared → Worker → Phase → Progress
goes_to g w ph = record { shared = g; worker = record w { phase = ph } }

abbrev pub max : ℕ → ℕ → ℕ
max a b = if ltb a b then b else a

-- A round of the loop of `tbegin` among `n` threads, and what follows it.
abbrev pub begins : (n i : ℕ) → List Procedure → Shared → Worker → Progress
begins n i todo g w =
    if ltb i n
    then goes_to g (record w { tx = record w.tx { txid = max w.tx.txid (g.lastcstamp i) } })
        (beginning (suc i) todo)
    else goes_to g
        (record w {
          tx = record w.tx {
            txid = (w.tx.txid + 1) % 2 ^ 32;
            status = Types.TransactionStatus.in_flight;
          };
        })
        (running todo)

-- `tbegin` up to its loop, or the whole of it. The `lastcstamp_` of a transaction that is tried again and
-- the `cstamp_` of a committed one are what the worker has stored last.
abbrev pub tbegin : (cctr_on : Bool) → List Procedure → Shared → Worker → Progress
tbegin true todo g w =
    goes_to g (record w { tx = record w.tx { txid = w.tx.cstamp } }) (beginning 0 todo)
tbegin false todo g w =
    goes_to (record g { cctr = suc g.cctr })
      (record w {
        tx = record w.tx { txid = suc g.cctr % 2 ^ 32; status = Types.TransactionStatus.in_flight };
      })
      (running todo)

abbrev pub after_read : Worker → ℕ → Bool → List Procedure → Worker
after_read w key true todo = record w { phase = writing key todo }
after_read w key false todo = record w { phase = running todo }

-- The call of `tread`, up to the load of `latest_`.
abbrev pub tread : Shared → Worker → ℕ → Bool → List Procedure → Worker
tread g w key write_next todo =
    if search_write_set w.tx key || search_read_set w.tx key
    then after_read w key write_next todo
    else record w { phase = loaded key write_next todo (g.table key).latest }

-- To `committed_prev_`, which has to be there.
abbrev pub steps_back : Option ℕ → (ℕ → Phase) → Phase
steps_back none ph = faulted
steps_back (some ver) ph = ph ver

abbrev pub is_committed : VersionStatus → Bool
is_committed Types.VersionStatus.committed = true
is_committed _ = false

abbrev pub is_in_flight : VersionStatus → Bool
is_in_flight Types.VersionStatus.in_flight = true
is_in_flight _ = false

-- The view of the transaction: the first committed version that is not later than `txid_`.
abbrev pub views : Shared → Worker → ℕ → Bool → List Procedure → ℕ → Phase
views g w key write_next todo ver =
    if ltb w.tx.txid (version g key ver).cstamp
    then steps_back (version g key ver).committed_prev (searching key write_next todo)
    else copying key write_next todo ver

abbrev pub copies : Shared → Worker → ℕ → Bool → List Procedure → ℕ → Worker
copies g w key write_next todo ver =
    after_read
      (record w {
        tx = record w.tx {
          read_set = w.tx.read_set ++ record { key = key; ver = ver } ∷ [];
          return_val = (version g key ver).val;
        };
      })
      key write_next todo

-- The call of `twrite`, up to the load of `latest_`.
abbrev pub twrite : Shared → Worker → ℕ → List Procedure → Phase
twrite g w key todo =
    if search_write_set w.tx key then running todo else examining key todo (g.table key).latest

abbrev pub fails : Shared → Worker → Progress
fails g w =
    goes_to g (record w { tx = record w.tx { status = Types.TransactionStatus.aborted } })
      (aborting w.tx.write_set)

-- A conflict with a transaction that is in flight.
abbrev pub conflicts : Shared → Worker → ℕ → List Procedure → ℕ → Progress
conflicts g w key todo expected =
    if leb w.tx.txid (version g key expected).cstamp
    then fails g w
    else goes_to g w (examining key todo (g.table key).latest)

abbrev pub climbs : Shared → ℕ → List Procedure → ℕ → ℕ → Phase
climbs g key todo expected vertmp =
    if is_committed (version g key vertmp).status
    then testing key todo expected vertmp
    else steps_back (version g key vertmp).committed_prev (climbing key todo expected)

-- First-updater-wins.
abbrev pub tests : Shared → Worker → ℕ → List Procedure → ℕ → ℕ → Progress
tests g w key todo expected vertmp =
    if ltb w.tx.txid (version g key vertmp).cstamp
    then fails g w
    else goes_to g w (linking key todo expected vertmp)

abbrev pub desired : (thid : ℕ) → Worker → (expected vertmp : ℕ) → Version
desired thid w expected vertmp = record {
  prev = some expected;
  committed_prev = some vertmp;
  cstamp = w.tx.txid;
  status = Types.VersionStatus.in_flight;
  val = [];
  owner = thid;
  began = w.tx.txid;
}

abbrev pub add_write : TxExecutor → ℕ → ℕ → TxExecutor
add_write x key ver = record x { write_set = x.write_set ++ record { key = key; ver = ver } ∷ [] }

-- The compare-and-swap, which loads `latest_` if it fails.
abbrev pub links : (thid : ℕ) → Shared → Worker → ℕ → List Procedure → ℕ → ℕ → Progress
links thid g w key todo expected vertmp =
    if (g.table key).latest == expected
    then goes_to (publish g key (desired thid w expected vertmp))
        (record w { tx = add_write w.tx key g.allocated }) (running todo)
    else goes_to g w (examining key todo (g.table key).latest)

abbrev pub starts_operation : Shared → Worker → Procedure → List Procedure → Worker
starts_operation g w p todo = elim p.ope [
  | read ↦ tread g w p.key false todo
  | write ↦ record w { phase = writing p.key todo }
  | read_modify_write ↦ tread g w p.key true todo
]

abbrev pub stamp : Version → ℕ → Version
stamp v cstamp = record v { cstamp = cstamp }

abbrev pub set_status : Version → VersionStatus → Version
set_status v status = record v { status = status }

abbrev pub clears : TxExecutor → TxExecutor
clears x = record x { read_set = []; write_set = [] }

unfoldable pub proceed : (n thid : ℕ) → Phase → Shared → Worker → Progress
unfolding search_read_set search_write_set
proceed n i idle g w = goes_to g w idle
proceed n i (beginning j todo) g w = begins n j todo g w
proceed n i (running []) g w =
    goes_to (record g { cctr = suc g.cctr })
      (record w {
        tx = record w.tx {
          cstamp = suc g.cctr % 2 ^ 32;
          status = Types.TransactionStatus.committed;
        };
      })
      (stamping w.tx.write_set)
proceed n i (running (p ∷ todo)) g w = record { shared = g; worker = starts_operation g w p todo }
proceed n i (loaded key b todo ver) g w =
    if is_committed (version g key ver).status
    then goes_to g w (searching key b todo ver)
    else goes_to g w (steps_back (version g key ver).committed_prev (searching key b todo))
proceed n i (searching key b todo ver) g w = goes_to g w (views g w key b todo ver)
proceed n i (copying key b todo ver) g w = record { shared = g; worker = copies g w key b todo ver }
proceed n i (writing key todo) g w = goes_to g w (twrite g w key todo)
proceed n i (examining key todo e) g w =
    if is_in_flight (version g key e).status
    then goes_to g w (conflicting key todo e)
    else goes_to g w (climbing key todo e e)
proceed n i (conflicting key todo e) g w = conflicts g w key todo e
proceed n i (climbing key todo e v) g w = goes_to g w (climbs g key todo e v)
proceed n i (testing key todo e v) g w = tests g w key todo e v
proceed n i (linking key todo e v) g w = links i g w key todo e v
proceed n i (stamping (e ∷ rest)) g w =
    goes_to (set_version g e.key e.ver (stamp (version g e.key e.ver) w.tx.cstamp)) w
      (paying (e ∷ rest))
proceed n i (stamping []) g w = goes_to g (record w { tx = clears w.tx }) ending
proceed n i (paying (e ∷ rest)) g w =
    goes_to (set_version g e.key e.ver (record (version g e.key e.ver) { val = w.tx.write_val })) w
      (releasing (e ∷ rest))
proceed n i (paying []) g w = goes_to g w (stamping [])
proceed n i (releasing (e ∷ rest)) g w =
    goes_to
      (set_version g e.key e.ver (set_status (version g e.key e.ver) Types.VersionStatus.committed))
      w (stamping rest)
proceed n i (releasing []) g w = goes_to g w (stamping [])
proceed n i ending g w =
    goes_to (record g { lastcstamp = assign g.lastcstamp i w.tx.cstamp })
      (record w { local_commit_counts = suc w.local_commit_counts }) idle
proceed n i (aborting (e ∷ rest)) g w =
    goes_to
      (set_version g e.key e.ver (set_status (version g e.key e.ver) Types.VersionStatus.aborted)) w
      (aborting rest)
proceed n i (aborting []) g w =
    goes_to g (record w { tx = clears w.tx; local_abort_counts = suc w.local_abort_counts }) idle
proceed n i faulted g w = goes_to g w faulted

unfoldable pub start : (cctr_on : Bool) → List Procedure → Shared → Worker → Progress
start cctr_on todo g w = tbegin cctr_on todo g w
