-- ===== src/Occ/Invariant.antt =====
-- The invariant that relates every interleaving of the workers of occ/ to a serial history.
use ccbench.Common.{
  ℕ, ◌+◌, ◌≤◌, ◌<◌, ◌≡◌, refl, ◌∙◌, inl, inr, false, ◌==◌, List, [], ◌∷◌, some, count, length, All,
  All-map, arith, ==_refl,
}
use ccbench.Common.Family.{sum_of, pair-le-sum_of, any_positive}
use native.Mathlib.Decide.{dec_lt}
use ccbench.Rwlock.Agreement.{Agrees}
use ccbench.Serial.{SetElement, Commit, Db, apply, apply-kept, Serial}
use ccbench.Occ.Operations.{TxnExecutor}
use ccbench.Occ.Workers.{
  Phase, idle, running, waiting, validating, storing, leaving, faulted, Worker, System,
}
use ccbench.Occ.History.{entry, entry-cons, IsRewritten, IsObserved, IsWindow}

-- Whether the worker owns `global_lock`.
abbrev pub owns : Worker → ℕ
owns w = elim w.phase [ validating ↦ 1 | storing rest ↦ 1 | leaving c ↦ 1 | faulted ↦ 1 | _ ↦ 0 ]

-- Whether it is between its validation and the publication of its write set.
abbrev pub storing_phase : Phase → ℕ
storing_phase (storing rest) = 1
storing_phase _ = 0

abbrev pub is_storing : Worker → ℕ
is_storing w = storing_phase w.phase

abbrev pub pending : Phase → List ℕ
pending (storing rest) = rest
pending _ = []

abbrev pub pending_on : ℕ → Worker → ℕ
pending_on k w = count k (pending w.phase)

-- What a transaction that has not been validated knows.
abbrev pub IsReading : Db → List Commit → ℕ → TxnExecutor → Type 0
IsReading db log next_id x =
    All (IsObserved db log x.start_tx_id) x.read_set × (x.start_tx_id ≤ next_id)

abbrev pub IsEmpty : TxnExecutor → Type 0
IsEmpty x = (x.read_set ≡ []) × (x.write_set ≡ [])

-- The transaction with the next id is this one.
pub record IsWriting (log : List Commit) (next_id : ℕ) (x : TxnExecutor) (rest : List ℕ)
    : Type 0 where
  pub own : Commit
  pub found : entry next_id log ≡ some own
  pub writes : own.writes ≡ x.write_set
  pub within : (k : ℕ) → count k rest ≤ count k own.writes

abbrev pub IsSettled : Phase → Db → List Commit → ℕ → TxnExecutor → Type 0
IsSettled idle db log next_id x = IsEmpty x
IsSettled (running todo) db log next_id x = IsReading db log next_id x
IsSettled (waiting turn) db log next_id x = IsReading db log next_id x
IsSettled validating db log next_id x = IsReading db log next_id x
IsSettled (storing rest) db log next_id x = IsWriting log next_id x rest
IsSettled (leaving c) db log next_id x = IsEmpty x
IsSettled faulted db log next_id x = Unit

pub record Inv (n : ℕ) (first : Db) (s : System) (db : Db) : Type 0 where
  pub serial : Serial first s.log db
  pub lock : Agrees s.shared.global_lock 0 (sum_of owns n s.workers)
  pub ids : s.shared.tx_id + sum_of is_storing n s.workers ≡ length s.log
  pub window : IsWindow s.shared s.log
  pub settled :
      (i : ℕ) → i < n → IsSettled (s.workers i).phase db s.log s.shared.tx_id (s.workers i).tx
  pub clean : (k : ℕ) → ((i : ℕ) → i < n → pending_on k (s.workers i) ≡ 0) → db k ≡ s.shared.table k
  pub dirty : (i k : ℕ) → i < n → 1 ≤ pending_on k (s.workers i) → db k ≡ (s.workers i).tx.write_val

is_storing-le-owns : (w : Worker) → is_storing w ≤ owns w
is_storing-le-owns w = ground arith

pub pending-le-is_storing : (k : ℕ) (w : Worker) → 1 ≤ pending_on k w → is_storing w ≡ 1
pending-le-is_storing k w h = ground arith

-- A commit of another transaction rewrites what was read, or leaves it.
pub IsObserved-commit :
    (db : Db) (log : List Commit) (start : ℕ) (c : Commit) (e : SetElement)
    → start ≤ length log
    → IsObserved db log start e
    → IsObserved (apply c db) (c ∷ log) start e
IsObserved-commit db log start c e h (inl same) = elim (dec_lt 0 (count e.key c.writes)) [
  | yes hit ↦ inr (record {
    id = length log;
    by = c;
    since = h;
    found = rw (==_refl (length log)) refl;
    writes = hit;
  })
  | no miss ↦ inl (apply-kept c db e.key (omega arith) ∙ same)
]
IsObserved-commit db log start c e h (inr r) = inr (record {
  id = r.id;
  by = r.by;
  since = r.since;
  found = entry-cons r.id c log r.found;
  writes = r.writes;
})

-- What a commit of another transaction, and later ids, do to a transaction that is not storing.
pub IsSettled-commit :
    (ph : Phase) (db : Db) (log : List Commit) (c : Commit) (next_id : ℕ) (x : TxnExecutor)
    → storing_phase ph ≡ 0
    → next_id ≤ length log
    → IsSettled ph db log next_id x
    → IsSettled ph (apply c db) (c ∷ log) next_id x
IsSettled-commit (storing rest) db log c next_id x calm h w = absurd (omega arith)
IsSettled-commit idle db log c next_id x calm h w = w
IsSettled-commit (leaving b) db log c next_id x calm h w = w
IsSettled-commit faulted db log c next_id x calm h w = w
IsSettled-commit _ db log c next_id x calm h (all, le) =
    (All-map _ _ (λ e. IsObserved-commit db log x.start_tx_id c e (omega arith)) x.read_set all, le)

pub IsSettled-later :
    (ph : Phase) (db : Db) (log : List Commit) (next_id later : ℕ) (x : TxnExecutor)
    → storing_phase ph ≡ 0
    → next_id ≤ later
    → IsSettled ph db log next_id x
    → IsSettled ph db log later x
IsSettled-later (storing rest) db log next_id later x calm h w = absurd (omega arith)
IsSettled-later idle db log next_id later x calm h w = w
IsSettled-later (leaving b) db log next_id later x calm h w = w
IsSettled-later faulted db log next_id later x calm h w = w
IsSettled-later _ db log next_id later x calm h (all, le) = (all, omega arith)

-- A pending write is that of the transaction with the next id.
pending-IsRewritten :
    (ph : Phase) (db : Db) (log : List Commit) (next_id : ℕ) (x : TxnExecutor) (k start : ℕ)
    → start ≤ next_id
    → 1 ≤ count k (pending ph)
    → IsSettled ph db log next_id x
    → IsRewritten log start k
pending-IsRewritten (storing rest) db log next_id x k start h hit w = record {
  id = next_id;
  by = w.own;
  since = h;
  found = w.found;
  writes = omega (arith, w.within k);
}
pending-IsRewritten _ db log next_id x k start h hit w = absurd (omega arith)

module _ {n : ℕ} {first : Db} {s : System} {db : Db} (inv : Inv n first s db) where
  -- At most one worker owns the lock.
  pub sole_owner :
      (i j : ℕ) → i < n → j < n → (i == j) ≡ false → owns (s.workers i) ≡ 1 → owns (s.workers j) ≡ 0
  sole_owner i j hi hj ne h =
      ground (
        arith,
        inv.lock,
        pair-le-sum_of owns n s.workers i j hi hj (λ e. absurd (ground (arith, e))),
      )

  pub storing_owner :
      (i j : ℕ)
      → i < n
      → j < n
      → (i == j) ≡ false
      → owns (s.workers i) ≡ 1
      → is_storing (s.workers j) ≡ 0
  storing_owner i j hi hj ne h =
      omega (arith, sole_owner i j hi hj ne h, is_storing-le-owns (s.workers j))

  -- The payload in the table is observed: it is current, or its writer has the next id.
  pub read-IsObserved :
      (k start : ℕ)
      → start ≤ s.shared.tx_id
      → IsObserved db s.log start (record { key = k; val = s.shared.table k })
  read-IsObserved k start h = elim (any_positive (pending_on k) n s.workers) [
    | inl quiet ↦ inl (inv.clean k quiet)
    | inr (j, hj, hit) ↦ inr (
        pending-IsRewritten (s.workers j).phase db s.log s.shared.tx_id (s.workers j).tx k start h
          hit (inv.settled j hj))
  ]
