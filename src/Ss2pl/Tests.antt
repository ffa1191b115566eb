-- ===== src/Ss2pl/Tests.antt =====
-- The theorems about ss2pl/ at concrete runs.
use ccbench.Common.{
  ℕ, zero, suc, ◌+◌, ◌≤◌, ◌<◌, ◌≡◌, ◌≢◌, refl, false, if◌then◌else◌, List, [], ◌∷◌, map, count,
  contains, All, arith,
}
use ccbench.Common.Int.{pos}
use ccbench.Rwlock
use ccbench.Rwlock.{RwLock, r_trylock, w_trylock, tryupgrade, r_unlock, w_unlock}
use ccbench.Ss2pl.Types.{Tuple, read, write, read_modify_write, Procedure, SetElement, aborted}
use ccbench.Ss2pl.Operations.{execute}
use ccbench.Common.Family.{sum_of-two}
use ccbench.Rwlock.Agreement.{Agrees}
use ccbench.Ss2pl.Effects.{Agrees-cast}
use ccbench.Ss2pl.Refinement.{Reach-Inv}
use ccbench.Ss2pl.Workers.{
  Phase, idle, storing, Worker, Commit, is_aborted, proceed, start, System, starts, runs, init,
  Reach, here, next,
}
use ccbench.Ss2pl.Progress.{reads_on, writes_on, pending_on}
use ccbench.Ss2pl.Serial.{Db, Serial}
use ccbench.Ss2pl.Safety.{serializable, write_lock_exclusive, repeatable_read, no_lock_left}
use ccbench.Ss2pl.LockedOnce.{locked_once}
use ccbench.Ss2pl.Conflicts.{conflicts, execute_decides}
use ccbench.Ss2pl.Alone.{RunsTo, commit_alone}
use native.Mathlib.Decide.{dec_lt}

abbrev zeros : Db
zeros k = 0 ∷ []

abbrev payloads : Db
payloads i = suc i ∷ []

record Run (n : ℕ) : Type 0 where
  last : System
  open last use *
  reach : Reach n zeros payloads last

-- One scheduled step; a thread between transactions stays there unless it is given procedures.
data Turn : Type 0 where
  begins : ℕ → List Procedure → Turn
  goes : ℕ → Turn

begin_at :
    {n : ℕ} (s : System) (i : ℕ) (todo : List Procedure) (ph : Phase)
    → Reach n zeros payloads s
    → i < n
    → (s.workers i).phase ≡ ph
    → Run n
begin_at s i todo idle r lt e = record { last = _; reach = next r (starts i todo lt e) }
begin_at s i todo _ r lt e = record { last = s; reach = r }

turn : {n : ℕ} → Run n → Turn → Run n
unfolding dec_lt begin_at
turn {n} r (begins i todo) = elim (dec_lt i n) [
  | yes lt ↦ begin_at r.last i todo (r.workers i).phase r.reach lt refl
  | no _ ↦ r
]
turn {n} r (goes i) = elim (dec_lt i n) [
  | yes lt ↦ record { last = _; reach = next r.reach (runs i lt) }
  | no _ ↦ r
]

run_turns : {n : ℕ} → Run n → List Turn → Run n
unfolding turn proceed init start execute Rwlock.init r_trylock w_trylock tryupgrade r_unlock
    w_unlock
run_turns r [] = r
run_turns r (t ∷ ts) = run_turns (turn r t) ts

abbrev two_workers : List Turn → Run 2
two_workers = run_turns (record { last = _; reach = here })

abbrev reads : ℕ → Procedure
reads k = record { ope = read; key = k }

abbrev writes : ℕ → Procedure
writes k = record { ope = write; key = k }

-- Worker 0 has read tuple 5 and written tuple 6, and worker 1 has read tuple 5.
abbrev sharing : Run 2
sharing = two_workers (
    begins 0 (reads 5 ∷ writes 6 ∷ [])
    ∷ goes 0
    ∷ goes 0
    ∷ begins 1 (reads 5 ∷ reads 6 ∷ [])
    ∷ goes 1
    ∷ [])

sharing_counter : (sharing.table 5).lock.counter ≡ pos 2
unfolding run_turns
sharing_counter = refl

-- The run goes on: worker 1 meets the write lock of tuple 6 and aborts, worker 0 commits.
abbrev after_conflict : Run 2
after_conflict =
    run_turns sharing
      (goes 1 ∷ goes 1 ∷ goes 1 ∷ goes 0 ∷ goes 0 ∷ goes 0 ∷ goes 0 ∷ goes 0 ∷ goes 0 ∷ [])

after_conflict_table :
    ((after_conflict.table 6).val ≡ 1 ∷ []) × ((after_conflict.workers 1).tx.local_abort_counts ≡ 1)
unfolding run_turns
after_conflict_table = (refl, refl)

serializable_example :
    (db : Db) × Serial zeros after_conflict.log db
    × ((k : ℕ)
        → ((i : ℕ) → i < 2 → pending_on k (after_conflict.workers i) ≡ 0)
        → db k ≡ (after_conflict.table k).val)
serializable_example = serializable after_conflict.reach

write_lock_exclusive_example :
    (reads_on 6 (sharing.workers 1) ≡ 0) × (writes_on 6 (sharing.workers 1) ≡ 0)
unfolding run_turns
write_lock_exclusive_example =
    write_lock_exclusive sharing.reach 0 1 6 (omega arith) (omega arith) (omega arith) (omega arith)

repeatable_read_example :
    All
      (λ (e : SetElement).
        (1 ≤ reads_on e.key (sharing.workers 1) + writes_on e.key (sharing.workers 1))
        × ((sharing.table e.key).val ≡ e.val))
      (sharing.workers 1).seen
unfolding run_turns
repeatable_read_example = repeatable_read sharing.reach 1 (reads 6 ∷ []) (omega arith) refl

all_idle : (i : ℕ) → i < 2 → (after_conflict.workers i).phase ≡ idle
unfolding run_turns
all_idle zero h = refl
all_idle (suc zero) h = refl
all_idle (suc (suc i)) h = absurd (omega arith)

no_lock_left_example : (after_conflict.table 5).lock.counter ≡ pos 0
no_lock_left_example = no_lock_left after_conflict.reach all_idle 5

locked_once_example : reads_on 5 (sharing.workers 0) + writes_on 5 (sharing.workers 0) ≤ 1
locked_once_example = locked_once sharing.reach 0 5 (omega arith)

-- Worker 1 is about to read tuple 6, which worker 0 has written.
execute_decides_example :
    (((j : ℕ) × (j < 2)
        × (1 ≢ j)
        × (1 ≤ conflicts read (reads_on 6 (sharing.workers j)) (writes_on 6 (sharing.workers j))))
      → (execute
          (record { table = sharing.table; tx = (sharing.workers 1).tx })
          (reads 6)).tx.status
        ≡ aborted)
    × (((j : ℕ)
          → j < 2
          → 1 ≢ j
          → conflicts read (reads_on 6 (sharing.workers j)) (writes_on 6 (sharing.workers j)) ≡ 0)
        → (execute
            (record { table = sharing.table; tx = (sharing.workers 1).tx })
            (reads 6)).tx.status
          ≡ (sharing.workers 1).tx.status)
unfolding run_turns
execute_decides_example = execute_decides sharing.reach 1 (reads 6) [] (omega arith) refl

-- Both workers change tuple 5 by a read-modify-write, one after the other: the second finds what the
-- first has stored.
abbrev changes : ℕ → Procedure
changes k = record { ope = read_modify_write; key = k }

abbrev both_change : Run 2
both_change = two_workers (
    begins 1 (changes 5 ∷ [])
    ∷ goes 1
    ∷ goes 1
    ∷ goes 1
    ∷ goes 1
    ∷ goes 1
    ∷ goes 1
    ∷ begins 0 (changes 5 ∷ [])
    ∷ goes 0
    ∷ goes 0
    ∷ [])

both_change_log :
    map (λ (c : Commit). c.reads) both_change.log
    ≡ (record { key = 5; val = 2 ∷ [] } ∷ []) ∷ (record { key = 5; val = 0 ∷ [] } ∷ []) ∷ []
unfolding run_turns
both_change_log = refl

-- Worker 0 is about to commit.
abbrev committing : Worker
committing = sharing.workers 0

-- The locks of worker 1 agree with what is not listed by worker 0.
besides :
    (k : ℕ)
    → Agrees
        (sharing.table k).lock
        (count k committing.tx.r_lock_list + reads_on k (sharing.workers 1))
        (count k committing.tx.w_lock_list + writes_on k (sharing.workers 1))
unfolding run_turns
besides k =
    Agrees-cast (sharing.table k).lock ((Reach-Inv sharing.reach).1.locks k)
      (sum_of-two (reads_on k) sharing.workers) (sum_of-two (writes_on k) sharing.workers)

not_aborted : is_aborted committing.tx.status ≡ false
unfolding run_turns
not_aborted = refl

commit_alone_example :
    (t' : ℕ → Tuple) × RunsTo sharing.table
      (record committing { phase = storing committing.tx.write_set })
      t'
      (record committing {
        tx = record committing.tx {
          r_lock_list = [];
          w_lock_list = [];
          read_set = [];
          write_set = [];
        };
        phase = idle;
        local_commit_counts = suc committing.local_commit_counts;
      })
    × ((k : ℕ)
        → (t' k).val ≡ (
            if contains k committing.tx.write_set
            then committing.tx.write_val
            else (sharing.table k).val))
    × ((k : ℕ)
        → Agrees (t' k).lock (reads_on k (sharing.workers 1)) (writes_on k (sharing.workers 1)))
commit_alone_example =
    commit_alone sharing.table committing (λ k. reads_on k (sharing.workers 1))
      (λ k. writes_on k (sharing.workers 1)) not_aborted besides
