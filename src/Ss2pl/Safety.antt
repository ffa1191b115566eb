-- ===== src/Ss2pl/Safety.antt =====
-- What ss2pl/ guarantees in every reachable state, for any number of workers and any interleaving.
use ccbench.Common.{ℕ, ◌+◌, ◌≤◌, ◌<◌, ◌≡◌, ◌≢◌, ap, List, count, All, All-map, subst, arith}
use ccbench.Common.Int.{pos}
use ccbench.Common.Family.{sum_of-eq-zero}
use ccbench.Ss2pl.Types.{Procedure, SetElement}
use ccbench.Ss2pl.Workers.{Phase, idle, running, Worker, System, Reach}
use ccbench.Ss2pl.Progress.{held_reads, held_writes, reads_on, writes_on, pending_on, IsSettled}
use ccbench.Ss2pl.Serial.{Db, Serial}
use ccbench.Ss2pl.Refinement.{Reach-Inv, exclusive}

-- Whatever `n` workers do in whatever order, the transactions that have committed form a serial
-- history: run one at a time in the order of their commits from the first database, each finds the
-- payloads that it has read, those that entered its read set and those that `readWrite` copied to
-- `return_val_`, and the database at the end is the table, in every tuple where no write of a
-- committed transaction is still pending.
pub serializable :
    {n : ℕ} {first vals : Db} {s : System}
    → Reach n first vals s
    → (db : Db) × Serial first s.log db
      × ((k : ℕ) → ((i : ℕ) → i < n → pending_on k (s.workers i) ≡ 0) → db k ≡ (s.table k).val)
serializable r = let (db, inv) = Reach-Inv r in (db, inv.serial, inv.clean)

-- In every reachable state a tuple that one worker has locked for writing is locked by no other
-- worker, for reading or for writing.
pub write_lock_exclusive :
    {n : ℕ} {first vals : Db} {s : System}
    → Reach n first vals s
    → (i j k : ℕ) → i < n
    → j < n
    → i ≢ j
    → 1 ≤ writes_on k (s.workers i)
    → (reads_on k (s.workers j) ≡ 0) × (writes_on k (s.workers j) ≡ 0)
write_lock_exclusive r i j k hi hj ne h = exclusive (Reach-Inv r).1 i j k hi hj ne h

-- As long as a transaction runs, every payload that has been in its read set or that `readWrite` has
-- copied to `return_val_` is still the payload of the tuple, and the transaction holds a lock of that
-- tuple.
pub repeatable_read :
    {n : ℕ} {first vals : Db} {s : System}
    → Reach n first vals s
    → (i : ℕ) (todo : List Procedure) → i < n
    → (s.workers i).phase ≡ running todo
    → All
        (λ (e : SetElement).
          (1 ≤ reads_on e.key (s.workers i) + writes_on e.key (s.workers i))
          × ((s.table e.key).val ≡ e.val))
        (s.workers i).seen
repeatable_read {s = s} r i todo lt e =
    All-map _ _
      (λ x c. (
        omega (
          arith,
          c.0,
          ap (λ (ph : Phase). count x.key (held_reads ph (s.workers i).tx)) e,
          ap (λ (ph : Phase). count x.key (held_writes ph (s.workers i).tx)) e,
        ),
        c.1,
      ))
      (s.workers i).seen
      (subst (λ (ph : Phase). IsSettled ph s.table (s.workers i)) e
        ((Reach-Inv r).1.settled i lt)).2

idle_holds_nothing :
    (k : ℕ) (ph : Phase) (s : System) (w : Worker)
    → ph ≡ idle
    → IsSettled ph s.table w
    → (count k (held_reads ph w.tx) ≡ 0) × (count k (held_writes ph w.tx) ≡ 0)
idle_holds_nothing k idle s w e (r, v, _, _) = (ap (count k) r, ap (count k) v)
idle_holds_nothing k _ s w e h = cc

-- Once every worker is between transactions, the lock of every tuple is free: neither commit nor
-- abort leaves a lock behind.
pub no_lock_left :
    {n : ℕ} {first vals : Db} {s : System}
    → Reach n first vals s
    → ((i : ℕ) → i < n → (s.workers i).phase ≡ idle)
    → (k : ℕ) → (s.table k).lock.counter ≡ pos 0
no_lock_left {n} {s = s} r all k = ground (
  arith,
  inv.locks k,
  sum_of-eq-zero (reads_on k) n s.workers (λ i lt. (nothing i lt).0),
  sum_of-eq-zero (writes_on k) n s.workers (λ i lt. (nothing i lt).1),
)
  where
    open (Reach-Inv r) use {«1» as inv}

    nothing : (i : ℕ) → i < n → (reads_on k (s.workers i) ≡ 0) × (writes_on k (s.workers i) ≡ 0)
    nothing i lt =
        idle_holds_nothing k (s.workers i).phase s (s.workers i) (all i lt) (inv.settled i lt)
