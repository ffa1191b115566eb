-- ===== src/Occ/History.antt =====
-- The history of occ/: transactions by their ids, and the part of it that `ws_list` of
-- occ/transaction.cc holds.
use ccbench.Common.{
  ℕ, ◌+◌, ◌-◌, ◌^◌, ◌≤◌, ◌<◌, ◌≡◌, ◌⊎◌, ◌==◌, if◌then◌else◌, List, [], ◌∷◌, Option, none, some,
  count, length, get_elem?, arith,
}
use ccbench.Serial.{SetElement, Commit, Db}
use ccbench.Occ.Operations.{Shared, u64, base}

-- The transaction with an id: the oldest has id 0.
abbrev pub entry : ℕ → List Commit → Option Commit
entry id [] = none
entry id (c ∷ log) = if length log == id then some c else entry id log

pub entry-below :
    (id : ℕ) (log : List Commit) {c : Commit} → entry id log ≡ some c → id < length log
entry-below id [] h = cc
entry-below id (x ∷ log) {c} h = ground (arith, entry-below id log {c = c})

pub entry-cons :
    (id : ℕ) (x : Commit) (log : List Commit) {c : Commit}
    → entry id log ≡ some c
    → entry id (x ∷ log) ≡ some c
entry-cons id x log {c} h = ground (arith, entry-below id log {c = c})

-- A key that a transaction with id `start` or above has written.
pub record IsRewritten (log : List Commit) (start k : ℕ) : Type 0 where
  pub id : ℕ
  pub by : Commit
  pub since : start ≤ id
  pub found : entry id log ≡ some by
  pub writes : 1 ≤ count k by.writes

-- What was read is what the database holds, or a transaction since `start` has written the key.
abbrev pub IsObserved : Db → List Commit → ℕ → SetElement → Type 0
IsObserved db log start e = (db e.key ≡ e.val) ⊎ IsRewritten log start e.key

-- `ws_list` holds the write sets from id `base` up to `txId`, and the ids fit an `int`.
pub record IsWindow (s : Shared) (log : List Commit) : Type 0 where
  pub size : length s.ws_list + base s ≡ s.tx_id
  pub small : s.tx_id < 2 ^ 31
  pub word : s.deleted_tx_id < u64
  pub holds :
      (id : ℕ) (c : Commit)
      → base s ≤ id
      → id < s.tx_id
      → entry id log ≡ some c
      → get_elem? s.ws_list (id - base s) ≡ some c.writes
