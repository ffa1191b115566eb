-- ===== src/Si/Types.antt =====
-- si/include/: the versions of a tuple, and the data of a transaction. A version is named by its tuple and
-- the number of the allocation, 0 for that of `partTableInit`; `prev` and `committed_prev` lead to
-- versions of the same tuple, or are null.
use ccbench.Common.{ℕ, suc, Bool, List, map, contains, Option}
use ccbench.Common.Family.{assign}
use ccbench.Procedure.{Payload}

pub data VersionStatus : Type 0 where
  in_flight committed aborted : VersionStatus

-- `owner` and `began` are not in the source: the worker that has made the version, and its `txid_`.
pub record Version : Type 0 where
  pub prev : Option ℕ
  pub committed_prev : Option ℕ
  pub cstamp : ℕ
  pub status : VersionStatus
  pub val : Payload
  pub owner : ℕ
  pub began : ℕ

pub record Tuple : Type 0 where
  pub latest : ℕ
  pub versions : ℕ → Version

-- `CCtr`, the number of versions that have been allocated, and the `lastcstamp_` in the element of `TMT` of
-- each worker; a new element takes it over from the one before.
pub record Shared : Type 0 where
  pub table : ℕ → Tuple
  pub allocated : ℕ
  pub cctr : ℕ
  pub lastcstamp : ℕ → ℕ

pub record SetElement : Type 0 where
  pub key : ℕ
  pub ver : ℕ

pub data TransactionStatus : Type 0 where
  in_flight committed aborted : TransactionStatus

pub record TxExecutor : Type 0 where
  pub cstamp : ℕ
  pub txid : ℕ
  pub return_val : Payload
  pub write_val : Payload
  pub read_set : List SetElement
  pub write_set : List SetElement
  pub status : TransactionStatus

abbrev pub keys : List SetElement → List ℕ
keys = map λ e. e.key

unfoldable pub search_read_set : TxExecutor → ℕ → Bool
search_read_set x key = contains key (keys x.read_set)

unfoldable pub search_write_set : TxExecutor → ℕ → Bool
search_write_set x key = contains key (keys x.write_set)

abbrev pub version : Shared → ℕ → ℕ → Version
version g key ver = (g.table key).versions ver

abbrev pub set_version : Shared → ℕ → ℕ → Version → Shared
set_version g key ver v = record g {
  table =
      assign g.table key (record (g.table key) { versions = assign (g.table key).versions ver v });
}

-- The compare-and-swap of `latest_` that publishes the next version; before it, nobody else sees one.
abbrev pub publish : Shared → ℕ → Version → Shared
publish g key v = record g {
  table =
      assign g.table key
        (record { latest = g.allocated; versions = assign (g.table key).versions g.allocated v });
  allocated = suc g.allocated;
}
