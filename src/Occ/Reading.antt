-- ===== src/Occ/Reading.antt =====
-- The operations of a transaction of occ/ keep what it knows about its read set.
use ccbench.Common.{ℕ, inl, inr, ◌||◌, contains, All-append, Bool-cases}
use ccbench.Procedure.{Ope, read, write, read_modify_write, Procedure}
use ccbench.Serial.{Db}
use ccbench.Occ.Operations.{TxnExecutor, execute, read_key, write_key, keys}
use ccbench.Occ.Workers.{System}
use ccbench.Occ.Invariant.{IsReading, Inv, read-IsObserved}

module _ {n : ℕ} {first : Db} {s : System} {db : Db} (inv : Inv n first s db) where
  read_key-IsReading :
      (x : TxnExecutor) (key : ℕ)
      → IsReading db s.log s.shared.tx_id x
      → IsReading db s.log s.shared.tx_id (read_key s.shared x key)
  unfolding read_key
  read_key-IsReading x key (old, le) =
      elim (Bool-cases (contains key (keys x.read_set) || contains key x.write_set)) [
        | inl own ↦ rw own (old, le)
        | inr fresh ↦
            rw fresh
              (All-append _ x.read_set _ old (read-IsObserved inv key x.start_tx_id le, tt), le)
      ]

  write_key-IsReading :
      (x : TxnExecutor) (key : ℕ)
      → IsReading db s.log s.shared.tx_id x
      → IsReading db s.log s.shared.tx_id (write_key x key)
  unfolding write_key
  write_key-IsReading x key h = elim (Bool-cases (contains key x.write_set)) [
    | inl own ↦ rw own h
    | inr fresh ↦ rw fresh h
  ]

  pub execute-IsReading :
      (x : TxnExecutor) (p : Procedure)
      → IsReading db s.log s.shared.tx_id x
      → IsReading db s.log s.shared.tx_id (execute s.shared x p)
  unfolding execute
  execute-IsReading x p h = dispatch p.ope
    where
      dispatch :
          (o : Ope) → IsReading db s.log s.shared.tx_id (execute s.shared x (record p { ope = o }))
      dispatch read = read_key-IsReading x p.key h
      dispatch write = write_key-IsReading x p.key h
      dispatch read_modify_write = write_key-IsReading _ p.key (read_key-IsReading x p.key h)
