-- ===== src/Serial.antt =====
-- The specification of the concurrency controls: transactions one after the other on a database that
-- gives each key its payload.
use ccbench.Common.{
  ℕ, ◌≤◌, ◌≡◌, if◌then◌else◌, List, [], ◌∷◌, count, contains, contains-count, not-contains-count,
  All, arith,
}
use ccbench.Procedure.{Payload}

-- An element of a read set: a key and the payload that was found there.
pub record SetElement : Type 0 where
  pub key : ℕ
  pub val : Payload

-- What a transaction that commits has read, the keys that it writes, and the payload for all of them.
pub record Commit : Type 0 where
  pub reads : List SetElement
  pub writes : List ℕ
  pub val : Payload

abbrev pub Db : Type 0
Db = ℕ → Payload

abbrev pub apply : Commit → Db → Db
apply c db k = if contains k c.writes then c.val else db k

pub apply-written : (c : Commit) (db : Db) (k : ℕ) → 1 ≤ count k c.writes → apply c db k ≡ c.val
apply-written c db k h = ground (arith, not-contains-count k c.writes)

pub apply-kept : (c : Commit) (db : Db) (k : ℕ) → count k c.writes ≡ 0 → apply c db k ≡ db k
apply-kept c db k h = ground (arith, contains-count k c.writes)

-- The transactions of the log, the oldest last, run one at a time: each reads what it finds.
pub data Serial (db : Db) : List Commit → Db → Type 0 where
  nothing : Serial db [] db
  then_commit :
      {log : List Commit} {before : Db} (c : Commit)
      → Serial db log before
      → All (λ (e : SetElement). before e.key ≡ e.val) c.reads
      → Serial db (c ∷ log) (apply c before)
