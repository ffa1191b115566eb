-- ===== src/Tictoc/Types.antt =====
-- tictoc/include/tuple.hh, tictoc_op_element.hh and transaction.hh: the data of TicToc.
use ccbench.Common.{ℕ, ◌+◌, ◌*◌, ◌^◌, Bool, false, List, map, if◌then◌else◌}
use ccbench.Procedure.{Payload}

-- The fields of `obj_`, from the lowest bit: 1, 15 and 48 bits.
pub record TsWord : Type 0 where
  pub lock : Bool
  pub delta : ℕ
  pub wts : ℕ

abbrev pub rts : TsWord → ℕ
rts t = t.wts + t.delta

abbrev pub bit : Bool → ℕ
bit b = if b then 1 else 0

abbrev pub obj : TsWord → ℕ
obj t = bit t.lock + 2 * t.delta + 2 ^ 16 * t.wts

abbrev pub zero_word : TsWord
zero_word = record { lock = false; delta = 0; wts = 0 }

pub record Tuple : Type 0 where
  pub tsw : TsWord
  pub pre_tsw : TsWord
  pub val : Payload

abbrev pub Table : Type 0
Table = ℕ → Tuple

pub record SetElement : Type 0 where
  pub key : ℕ
  pub val : Payload
  pub tsw : TsWord

-- A `SetElement` of the write set: its constructor leaves `val_` unset.
pub record WriteElement : Type 0 where
  pub key : ℕ
  pub tsw : TsWord

pub data TransactionStatus : Type 0 where
  in_flight committed aborted : TransactionStatus

pub record TxExecutor : Type 0 where
  pub read_set : List SetElement
  pub write_set : List WriteElement
  pub status : TransactionStatus
  pub commit_ts : ℕ
  pub appro_commit_ts : ℕ
  pub write_val : Payload
  pub return_val : Payload

abbrev pub read_keys : List SetElement → List ℕ
read_keys = map λ e. e.key

abbrev pub write_keys : List WriteElement → List ℕ
write_keys = map λ e. e.key
