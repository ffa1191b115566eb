-- ===== src/Ss2pl/Conflicts.antt =====
-- When an operation of ss2pl/transaction.cc aborts the transaction.
use ccbench.Common.{
  ℕ, ◌+◌, ◌-◌, ◌≤◌, ◌<◌, ◌≡◌, ◌≢◌, refl, ap, subst, List, [], ◌∷◌, true, false, if◌then◌else◌,
  contains, count, arith, inl, inr, Bool-cases,
}
use ccbench.Common.Family.{
  assign, at_each, sum_of, sum_of-assign, sum_of-eq-zero, le-sum_of, pair-le-sum_of,
}
use ccbench.Rwlock.{r_trylock, w_trylock, tryupgrade}
use ccbench.Rwlock.Agreement.{Agrees}
use ccbench.Ss2pl.Types.{
  Payload, Ope, read, write, read_modify_write, Procedure, Tuple, aborted, keys,
}
use ccbench.Ss2pl.Operations.{
  State, succeeded, try_now, read_key, upgrade_read, lock_write, execute,
}
use ccbench.Ss2pl.Effects.{IsMatched, Agrees-cast}
use ccbench.Ss2pl.Workers.{Phase, running, unlocking, Worker, System, Reach}
use ccbench.Ss2pl.Progress.{held_reads, held_writes, reads_on, writes_on, IsSettled}
use ccbench.Ss2pl.Serial.{Db}
use ccbench.Ss2pl.Refinement.{Reach-Inv}
use ccbench.Ss2pl.LockedOnce.{locked_once}
use ccbench.Ss2pl.Once.{IsOnce, own_write, no_write, own_read, no_read}

-- When a `try` call returns true, and when false.
module _ (t : Tuple) {r w : ℕ} (a : Agrees t.lock r w) where
  read_free : w ≡ 0 → succeeded (try_now r_trylock t).outcome ≡ true
  unfolding r_trylock
  read_free h = ground arith

  read_refused : 1 ≤ w → succeeded (try_now r_trylock t).outcome ≡ false
  unfolding r_trylock
  read_refused h = ground arith

  write_free : r ≡ 0 → w ≡ 0 → succeeded (try_now w_trylock t).outcome ≡ true
  unfolding w_trylock
  write_free h h' = ground arith

  write_refused : 1 ≤ r + w → succeeded (try_now w_trylock t).outcome ≡ false
  unfolding w_trylock
  write_refused h = ground arith

  upgrade_free : r ≡ 1 → w ≡ 0 → succeeded (try_now tryupgrade t).outcome ≡ true
  unfolding tryupgrade
  upgrade_free h h' = ground arith

  upgrade_refused : 2 ≤ r + w → succeeded (try_now tryupgrade t).outcome ≡ false
  unfolding tryupgrade
  upgrade_refused h = ground arith

-- How many of the `r` readers and `w` writers among the other transactions keep an operation out.
abbrev pub conflicts : Ope → ℕ → ℕ → ℕ
conflicts read r w = w
conflicts write r w = r + w
conflicts read_modify_write r w = r + w

-- An operation that `c` others keep out: it aborts the transaction exactly if there is one.
abbrev Decides : ℕ → State → State → Type 0
Decides c s s' = (1 ≤ c → s'.tx.status ≡ aborted) × (c ≡ 0 → s'.tx.status ≡ s.tx.status)

module _ (s : State) (key : ℕ) (m : IsMatched s.tx) (once : IsOnce s.tx) (r w : ℕ)
    (a : Agrees
      (s.table key).lock
      (count key s.tx.r_lock_list + r)
      (count key s.tx.w_lock_list + w)) where
  read_key-Decides : Decides w s (read_key s key)
  unfolding read_key
  read_key-Decides = (
    λ h.
        ground (arith, own_write s key m once, own_read s key m once, read_refused (s.table key) a),
    λ h. ground (arith, no_write s key m once, read_free (s.table key) a),
  )

  upgrade_read-Decides :
      contains key (keys s.tx.read_set) ≡ true → Decides (r + w) s (upgrade_read s key)
  unfolding upgrade_read
  upgrade_read-Decides old = (
    λ h. ground (arith, own_read s key m once old, upgrade_refused (s.table key) a),
    λ h. ground (arith, own_read s key m once old, once key, upgrade_free (s.table key) a),
  )

  lock_write-Decides :
      (load : Payload → Payload → Payload)
      → count key s.tx.r_lock_list ≡ 0
      → count key s.tx.w_lock_list ≡ 0
      → Decides (r + w) s (lock_write load s key)
  unfolding lock_write
  lock_write-Decides load no_r no_w = (
    λ h. ground (arith, write_refused (s.table key) a),
    λ h. ground (arith, write_free (s.table key) a),
  )

  written-Decides :
      (load : Payload → Payload → Payload)
      → Decides (r + w) s (
          if contains key s.tx.write_set
          then s
          else if contains key (keys s.tx.read_set)
          then upgrade_read s key
          else lock_write load s key)
  written-Decides load = elim (Bool-cases (contains key s.tx.write_set)) [
    | inl own ↦ rw own (λ h. absurd (ground (arith, own_write s key m once own)), λ h. refl)
    | inr free ↦ elim (Bool-cases (contains key (keys s.tx.read_set))) [
      | inl old ↦ rw (free, old) (upgrade_read-Decides old)
      | inr fresh ↦
          rw (free, fresh)
            (lock_write-Decides load (no_read s key m once fresh) (no_write s key m once free))
    ]
  ]

-- Where the transaction holds no tuple twice and the other transactions hold `r` read locks and `w`
-- write locks of the tuple, those that conflict with the operation decide.
execute-Decides :
    (s : State) (p : Procedure) (r w : ℕ)
    → IsMatched s.tx
    → IsOnce s.tx
    → Agrees
        (s.table p.key).lock
        (count p.key s.tx.r_lock_list + r)
        (count p.key s.tx.w_lock_list + w)
    → Decides (conflicts p.ope r w) s (execute s p)
unfolding execute
execute-Decides s p r w m once a = dispatch p.ope
  where
    dispatch : (o : Ope) → Decides (conflicts o r w) s (execute s (record p { ope = o }))
    dispatch read = read_key-Decides s p.key m once r w a
    dispatch write = written-Decides s p.key m once r w a (λ _ old. old)
    dispatch read_modify_write = written-Decides s p.key m once r w a (λ v _. v)

module _ {n : ℕ} {first vals : Db} {s : System} (r : Reach n first vals s) (i : ℕ) (p : Procedure)
    (todo : List Procedure) (lt : i < n) (e : (s.workers i).phase ≡ running (p ∷ todo)) where
  abbrev w : Worker
  w = s.workers i

  abbrev before : State
  before = record { table = s.table; tx = w.tx }

  -- The locks of the others, added up.
  abbrev others : (Worker → ℕ) → ℕ
  others f = sum_of f n s.workers - f w

  -- If the others weigh nothing, neither do they together.
  others_none :
      (f : Worker → ℕ)
      → f (record w { phase = unlocking [] [] }) ≡ 0
      → ((j : ℕ) → j < n → i ≢ j → f (s.workers j) ≡ 0)
      → others f ≡ 0
  others_none f free none = omega (
    arith,
    free,
    sum_of-assign f n s.workers i (record w { phase = unlocking [] [] }) lt,
    sum_of-eq-zero f n (assign s.workers i (record w { phase = unlocking [] [] })) (λ j hj.
        at_each (λ x. f x ≡ 0) s.workers i _ j free (λ o. none j hj (λ q. ground (arith, o, q)))),
  )

  other-le : (f : Worker → ℕ) (j : ℕ) → j < n → i ≢ j → f (s.workers j) ≤ others f
  other-le f j hj ne = omega (arith, pair-le-sum_of f n s.workers i j lt hj ne)

  decides :
      Decides
        (conflicts p.ope (others (reads_on p.key)) (others (writes_on p.key)))
        before
        (execute before p)
  decides =
      execute-Decides before p (others (reads_on p.key)) (others (writes_on p.key))
        (subst (λ (ph : Phase). IsSettled ph s.table w) e (inv.settled i lt)).0
        (λ k. omega (arith, locked_once r i k lt, held k))
        (Agrees-cast (s.table p.key).lock (inv.locks p.key)
          (omega (arith, held p.key, le-sum_of (reads_on p.key) n s.workers i lt))
          (omega (arith, held p.key, le-sum_of (writes_on p.key) n s.workers i lt)))
    where
      open (Reach-Inv r) use {«1» as inv}

      held :
          (k : ℕ)
          → (reads_on k w ≡ count k w.tx.r_lock_list) × (writes_on k w ≡ count k w.tx.w_lock_list)
      held k = (
        ap (λ (ph : Phase). count k (held_reads ph w.tx)) e,
        ap (λ (ph : Phase). count k (held_writes ph w.tx)) e,
      )

  some_conflict :
      (o : Ope) (j : ℕ)
      → j < n
      → i ≢ j
      → 1 ≤ conflicts o (reads_on p.key (s.workers j)) (writes_on p.key (s.workers j))
      → 1 ≤ conflicts o (others (reads_on p.key)) (others (writes_on p.key))
  some_conflict o j hj ne h =
      grind (arith, h, other-le (reads_on p.key) j hj ne, other-le (writes_on p.key) j hj ne)

  no_locks :
      ((j : ℕ) → j < n → i ≢ j → reads_on p.key (s.workers j) + writes_on p.key (s.workers j) ≡ 0)
      → others (reads_on p.key) + others (writes_on p.key) ≡ 0
  no_locks h = omega (
    arith,
    others_none (reads_on p.key) refl (λ j hj ne. omega (arith, h j hj ne)),
    others_none (writes_on p.key) refl (λ j hj ne. omega (arith, h j hj ne)),
  )

  no_conflict :
      (o : Ope)
      → ((j : ℕ)
          → j < n
          → i ≢ j
          → conflicts o (reads_on p.key (s.workers j)) (writes_on p.key (s.workers j)) ≡ 0)
      → conflicts o (others (reads_on p.key)) (others (writes_on p.key)) ≡ 0
  no_conflict read h = others_none (writes_on p.key) refl h
  no_conflict write h = no_locks h
  no_conflict read_modify_write h = no_locks h

-- No-wait locking, in every reachable state: the next operation of a running transaction aborts it if
-- another worker has locked the tuple in a way that conflicts with it (in any way for a write or a
-- read-modify-write, for writing for a read), and leaves its status alone if none has.
pub execute_decides :
    {n : ℕ} {first vals : Db} {s : System}
    → Reach n first vals s
    → (i : ℕ) (p : Procedure) (todo : List Procedure) → i < n
    → (s.workers i).phase ≡ running (p ∷ todo)
    → (((j : ℕ) × (j < n)
          × (i ≢ j)
          × (1 ≤ conflicts p.ope (reads_on p.key (s.workers j)) (writes_on p.key (s.workers j))))
        → (execute (record { table = s.table; tx = (s.workers i).tx }) p).tx.status ≡ aborted)
      × (((j : ℕ)
            → j < n
            → i ≢ j
            → conflicts p.ope (reads_on p.key (s.workers j)) (writes_on p.key (s.workers j)) ≡ 0)
          → (execute (record { table = s.table; tx = (s.workers i).tx }) p).tx.status
            ≡ (s.workers i).tx.status)
execute_decides r i p todo lt e = (
  λ (j, hj, ne, h). (decides r i p todo lt e).0 (some_conflict r i p todo lt e p.ope j hj ne h),
  λ h. (decides r i p todo lt e).1 (no_conflict r i p todo lt e p.ope h),
)
