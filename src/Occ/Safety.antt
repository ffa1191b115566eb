-- ===== src/Occ/Safety.antt =====
-- What occ/ guarantees in every reachable state, for any number of workers and any interleaving.
use ccbench.Common.{
  ℕ, zero, suc, drop, length-drop, ◌-◌, ◌^◌, ◌≤◌, ◌<◌, ◌≡◌, ◌≢◌, refl, sym, subst, ◌∙◌, true, false,
  List, [], ◌∷◌, none, some, count, length, All, All-map, arith,
}
use ccbench.Serial.{SetElement, Commit, Db, Serial}
use ccbench.Occ.Operations.{
  TxnExecutor, Shared, keys, base, index_of, check, validate, validation_phase,
}
use ccbench.Occ.Workers.{Phase, validating, System, Reach}
use ccbench.Occ.History.{IsWindow, IsRewritten}
use ccbench.Occ.Validation.{validated_current, rejected}
use ccbench.Occ.Invariant.{owns, pending_on, IsSettled, IsReading, sole_owner}
use ccbench.Occ.Refinement.{all_published, all_quiet}
use ccbench.Occ.Steps.{Reach-Inv}

-- Whatever `n` workers do in whatever order, and however often `gc` runs, as long as fewer than 2^31
-- transactions have committed these form a serial history: run one at a time in the order of their
-- validations from the first database, each finds the payloads that it has read, and the database at
-- the end is the table, in every tuple where no write of a committed transaction is still pending.
pub validated_serializable :
    {threshold n : ℕ} {first vals : Db} {s : System}
    → Reach threshold n first vals s
    → length s.log < 2 ^ 31
    → (db : Db) × Serial first s.log db
      × ((k : ℕ) → ((i : ℕ) → i < n → pending_on k (s.workers i) ≡ 0) → db k ≡ s.shared.table k)
validated_serializable r small = let (db, inv) = Reach-Inv r small in (db, inv.serial, inv.clean)

-- In every reachable state with fewer than 2^31 commits at most one worker is between `w_lock` and
-- `w_unlock`: if one is in `validationPhase`, in `writePhase` or before its `w_unlock`, no other is.
pub validation_exclusive :
    {threshold n : ℕ} {first vals : Db} {s : System}
    → Reach threshold n first vals s
    → length s.log < 2 ^ 31
    → (i j : ℕ) → i < n
    → j < n
    → i ≢ j
    → owns (s.workers i) ≡ 1
    → owns (s.workers j) ≡ 0
validation_exclusive r small i j hi hj ne h =
    sole_owner (Reach-Inv r small).1 i j hi hj (ground arith) h

check_defined :
    (ks : List ℕ) (rounds : ℕ) (ws : List (List ℕ)) → rounds ≤ length ws → check ks rounds ws ≢ none
unfolding check
check_defined ks zero ws h e = cc
check_defined ks (suc m) [] h e = absurd (ground arith)
check_defined ks (suc m) (w ∷ ws) h e = ground (arith, check_defined ks m ws)

window_defined :
    (s : Shared) (log : List Commit) (x : TxnExecutor)
    → IsWindow s log
    → x.start_tx_id ≤ s.tx_id
    → (base s ≤ x.start_tx_id → validation_phase s x ≢ none)
      × (x.start_tx_id < base s → x.read_set ≢ [] → validation_phase s x ≡ none)
unfolding validation_phase validate
window_defined s log x w st = (inside (keys x.read_set), outside x.read_set)
  where
    b : ℕ
    b = index_of s x.start_tx_id

    e : ℕ
    e = index_of s s.tx_id

    inside : (ks : List ℕ) → base s ≤ x.start_tx_id → validate ks b e s.ws_list ≢ none
    inside [] h f = cc
    inside (k ∷ ks) h f =
        check_defined (k ∷ ks) (e - b) (drop b s.ws_list)
          (ground (arith, length-drop b s.ws_list, w.size, w.small, st))
          (ground (arith, w.size, w.small, st))

    outside :
        (es : List SetElement)
        → x.start_tx_id < base s
        → es ≢ []
        → validate (keys es) b e s.ws_list ≡ none
    outside [] h f = absurd (f refl)
    outside (r ∷ es) h f = ground (arith, w.size, w.small, st, w.word)

module _ {threshold n : ℕ} {first vals : Db} {s : System} (r : Reach threshold n first vals s)
    (small : length s.log < 2 ^ 31) (i : ℕ) (lt : i < n)
    (e : (s.workers i).phase ≡ validating) where
  reading : IsReading (Reach-Inv r small).0 s.log s.shared.tx_id (s.workers i).tx
  reading =
      subst
        (λ (ph : Phase). IsSettled ph (Reach-Inv r small).0 s.log s.shared.tx_id (s.workers i).tx) e
        ((Reach-Inv r small).1.settled i lt)

  -- When a worker comes to `validationPhase`, with fewer than 2^31 commits so far, this stays inside `ws_list` if no write set since the
  -- start of the transaction has been deleted; if one has, and the transaction has read anything, it
  -- reads outside `ws_list`.
  pub validation_defined :
      (base s.shared ≤ (s.workers i).tx.start_tx_id
        → validation_phase s.shared (s.workers i).tx ≢ none)
      × ((s.workers i).tx.start_tx_id < base s.shared
          → (s.workers i).tx.read_set ≢ []
          → validation_phase s.shared (s.workers i).tx ≡ none)
  validation_defined =
      window_defined s.shared s.log (s.workers i).tx (Reach-Inv r small).1.window reading.1

  -- With fewer than 2^31 commits so far, the answer of `validationPhase` is exact: if it lets the transaction commit, every tuple that was
  -- read still has the payload that was read; if it does not, a transaction that has committed since
  -- the start has written a key of the read set.
  pub validation_exact :
      (validation_phase s.shared (s.workers i).tx ≡ some true
        → All (λ (x : SetElement). s.shared.table x.key ≡ x.val) (s.workers i).tx.read_set)
      × (validation_phase s.shared (s.workers i).tx ≡ some false
          → (k : ℕ) × (1 ≤ count k (keys (s.workers i).tx.read_set))
            × IsRewritten s.log (s.workers i).tx.start_tx_id k)
  validation_exact = (
    λ v.
        All-map _ _ (λ x same. sym (inv.clean x.key (all_quiet inv i lt e x.key)) ∙ same)
          (s.workers i).tx.read_set
          (validated_current s.shared s.log (s.workers i).tx (Reach-Inv r small).0 inv.window
            reading.1 full v reading.0),
    λ v. rejected s.shared s.log (s.workers i).tx inv.window reading.1 full v,
  )
    where
      open (Reach-Inv r small) use {«1» as inv}

      full : s.shared.tx_id ≡ length s.log
      full = all_published inv i lt e
