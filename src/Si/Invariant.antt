-- ===== src/Si/Invariant.antt =====
-- What holds of the versions of a tuple of si/ between any two steps, and of what a worker has found.
use ccbench.Common.{
  ℕ, suc, ◌≤◌, ◌<◌, ◌≡◌, ◌≢◌, ◌⊎◌, true, false, List, [], ◌∷◌, none, some, All, count,
}
use ccbench.Si.Types.{Version, Tuple, Shared, SetElement, TxExecutor, keys, version}
use ccbench.Si.Workers.{
  Phase, idle, beginning, running, loaded, searching, copying, writing, examining, conflicting,
  climbing, testing, linking, stamping, paying, releasing, ending, aborting, faulted, is_committed,
  is_in_flight,
}
use ccbench.Si.System.{System}

abbrev pub IsCommitted : Version → Type 0
IsCommitted v = is_committed v.status ≡ true

abbrev pub IsFlying : Version → Type 0
IsFlying v = is_in_flight v.status ≡ true

-- `p` is the newest committed version once `e` is not in flight or the transaction that has made it has
-- aborted: `e` itself, or what it links to.
abbrev pub IsTop : (ℕ → Version) → (e p : ℕ) → Type 0
IsTop vs e p =
    (IsCommitted (vs e) × (p ≡ e))
    ⊎ ((is_committed (vs e).status ≡ false) × ((vs e).committed_prev ≡ some p))

-- Of a tuple, with `a` versions allocated and `CCtr` at `c`.
pub record IsOrdered (a c : ℕ) (t : Tuple) : Type 0 where
  pub fresh :
      (v : ℕ)
      → a ≤ v
      → (is_committed (t.versions v).status ≡ false) × (is_in_flight (t.versions v).status ≡ false)
  pub latest : t.latest < a
  pub first :
      (v : ℕ)
      → (t.versions v).committed_prev ≡ none
      → IsCommitted (t.versions v) × ((t.versions v).cstamp ≡ 0)
  pub linked :
      (v p : ℕ)
      → (t.versions v).committed_prev ≡ some p
      → (p < a) × IsCommitted (t.versions p) × ((t.versions p).cstamp ≤ (t.versions v).began)
  pub stamped :
      (v : ℕ)
      → IsCommitted (t.versions v)
      → ((t.versions v).began ≤ (t.versions v).cstamp) × ((t.versions v).cstamp ≤ c)
  pub flying : (v : ℕ) → IsFlying (t.versions v) → v ≡ t.latest
  pub newest :
      (p u : ℕ)
      → IsTop t.versions t.latest p
      → IsCommitted (t.versions u)
      → (t.versions u).cstamp ≤ (t.versions p).cstamp
  pub apart :
      (u v : ℕ)
      → IsCommitted (t.versions u)
      → IsCommitted (t.versions v)
      → u ≢ v
      → ((t.versions u).cstamp ≤ (t.versions v).began)
        ⊎ ((t.versions v).cstamp ≤ (t.versions u).began)

-- A version that worker `i` has written and not yet committed or aborted.
pub record IsOwned (g : Shared) (i txid : ℕ) (e : SetElement) : Type 0 where
  pub flying : IsFlying (version g e.key e.ver)
  pub owner : (version g e.key e.ver).owner ≡ i
  pub began : (version g e.key e.ver).began ≡ txid

-- One that it has read.
abbrev pub IsSeen : Shared → ℕ → SetElement → Type 0
IsSeen g txid e = IsCommitted (version g e.key e.ver) × ((version g e.key e.ver).cstamp ≤ txid)

pub record HasWritten (g : Shared) (i txid : ℕ) (ws : List SetElement) : Type 0 where
  pub owned : All (IsOwned g i txid) ws
  pub once : (k : ℕ) → count k (keys ws) ≤ 1

pub record IsActive (g : Shared) (i : ℕ) (x : TxExecutor) : Type 0 where
  pub written : HasWritten g i x.txid x.write_set
  pub seen : All (IsSeen g x.txid) x.read_set
  pub txid : x.txid ≤ suc g.cctr
  pub cstamp : x.cstamp ≤ g.cctr

pub record IsFound (g : Shared) (x : TxExecutor) (key e v : ℕ) : Type 0 where
  pub unwritten : count key (keys x.write_set) ≡ 0
  pub expected : e < g.allocated
  pub settled : is_in_flight (version g key e).status ≡ false
  pub top : IsTop (g.table key).versions e v
  pub committed : IsCommitted (version g key v)

pub record IsCommitting (g : Shared) (i : ℕ) (x : TxExecutor) (rest : List SetElement)
    : Type 0 where
  pub written : HasWritten g i x.txid rest
  pub seen : All (IsSeen g x.txid) x.read_set
  pub cstamp : (x.txid ≤ x.cstamp) × (x.cstamp ≤ g.cctr)

abbrev pub IsStamped : Shared → ℕ → List SetElement → Type 0
IsStamped g cstamp [] = Unit
IsStamped g cstamp (e ∷ rest) = (version g e.key e.ver).cstamp ≡ cstamp

abbrev pub IsIdle : Shared → TxExecutor → Type 0
IsIdle g x = (x.read_set ≡ []) × (x.write_set ≡ []) × (x.cstamp ≤ g.cctr)

abbrev pub IsSettled : Shared → ℕ → Phase → TxExecutor → Type 0
IsSettled g i idle x = IsIdle g x
IsSettled g i (beginning j todo) x = IsIdle g x × (x.txid ≤ g.cctr)
IsSettled g i (running todo) x = IsActive g i x
IsSettled g i (loaded key b todo v) x = IsActive g i x × (v < g.allocated)
IsSettled g i (searching key b todo v) x = IsActive g i x × IsCommitted (version g key v)
IsSettled g i (copying key b todo v) x =
    IsActive g i x × IsCommitted (version g key v) × ((version g key v).cstamp ≤ x.txid)
IsSettled g i (writing key todo) x = IsActive g i x
IsSettled g i (examining key todo e) x =
    IsActive g i x × (count key (keys x.write_set) ≡ 0) × (e < g.allocated)
IsSettled g i (conflicting key todo e) x =
    IsActive g i x × (count key (keys x.write_set) ≡ 0) × (e < g.allocated)
IsSettled g i (climbing key todo e v) x =
    IsActive g i x
    × (count key (keys x.write_set) ≡ 0)
    × (e < g.allocated)
    × (is_in_flight (version g key e).status ≡ false)
    × ((v ≡ e) ⊎ IsFound g x key e v)
IsSettled g i (testing key todo e v) x = IsActive g i x × IsFound g x key e v
IsSettled g i (linking key todo e v) x =
    IsActive g i x × IsFound g x key e v × ((version g key v).cstamp ≤ x.txid)
IsSettled g i (stamping rest) x = IsCommitting g i x rest
IsSettled g i (paying rest) x = IsCommitting g i x rest × IsStamped g x.cstamp rest
IsSettled g i (releasing rest) x = IsCommitting g i x rest × IsStamped g x.cstamp rest
IsSettled g i ending x = IsIdle g x
IsSettled g i (aborting rest) x =
    HasWritten g i x.txid rest × (x.cstamp ≤ g.cctr) × All (IsSeen g x.txid) x.read_set
IsSettled g i faulted x = ⊥

pub record Inv (s : System) : Type 0 where
  pub tuples : (k : ℕ) → IsOrdered s.shared.allocated s.shared.cctr (s.shared.table k)
  pub allocated : 1 ≤ s.shared.allocated
  pub cctr : s.shared.cctr ≤ s.clock
  pub last : (i : ℕ) → s.shared.lastcstamp i ≤ s.shared.cctr
  pub settled : (i : ℕ) → IsSettled s.shared i (s.workers i).phase (s.workers i).tx
