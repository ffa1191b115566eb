-- ===== src/Occ/Tests.antt =====
-- The theorems about occ/ at concrete runs.
use ccbench.Common.{
  ℕ, suc, ◌^◌, ◌≤◌, ◌<◌, ◌≡◌, ◌≢◌, refl, true, false, none, some, List, [], ◌∷◌, All, count, length,
  arith,
}
use ccbench.Rwlock
use ccbench.Rwlock.{w_lock, w_unlock}
use ccbench.Procedure.{read, write, Procedure}
use ccbench.Serial.{SetElement, Db, Serial}
use ccbench.Occ.Operations.{
  keys, base, execute, search_read_set, search_write_set, read_key, write_key, validate, check,
  validation_phase, slowest, gc, store, publish, clear_sets, begin,
}
use ccbench.Occ.Workers.{
  Phase, idle, validating, proceed, start, System, starts, runs, init, Reach, here, next,
}
use ccbench.Occ.History.{IsRewritten}
use ccbench.Occ.Invariant.{owns, pending_on}
use ccbench.Occ.Safety.{
  validated_serializable, validation_exclusive, validation_defined, validation_exact,
}
use native.Mathlib.Decide.{dec_lt}

abbrev zeros : Db
zeros k = 0 ∷ []

abbrev payloads : Db
payloads i = suc i ∷ []

record Run (n : ℕ) : Type 0 where
  last : System
  open last use *
  reach : Reach 1 n zeros payloads last

-- One scheduled step; a thread between transactions stays there unless it is given procedures.
data Turn : Type 0 where
  begins : ℕ → List Procedure → Turn
  goes : ℕ → Turn

begin_at :
    {n : ℕ} (s : System) (i : ℕ) (todo : List Procedure) (ph : Phase)
    → Reach 1 n zeros payloads s
    → i < n
    → (s.workers i).phase ≡ ph
    → Run n
begin_at s i todo idle r lt e = record { last = _; reach = next r (starts i todo lt e) }
begin_at s i todo _ r lt e = record { last = s; reach = r }

turn : {n : ℕ} → Run n → Turn → Run n
unfolding dec_lt begin_at
turn {n} r (begins i todo) = elim (dec_lt i n) [
  | yes lt ↦ begin_at r.last i todo (r.workers i).phase r.reach lt refl
  | no _ ↦ r
]
turn {n} r (goes i) = elim (dec_lt i n) [
  | yes lt ↦ record { last = _; reach = next r.reach (runs i lt) }
  | no _ ↦ r
]

run_turns : {n : ℕ} → Run n → List Turn → Run n
unfolding turn proceed init start begin execute search_read_set search_write_set read_key write_key
    validate check validation_phase slowest gc store publish clear_sets Rwlock.init w_lock w_unlock
run_turns r [] = r
run_turns r (t ∷ ts) = run_turns (turn r t) ts

abbrev two_workers : List Turn → Run 2
two_workers = run_turns (record { last = _; reach = here })

abbrev reads : ℕ → Procedure
reads k = record { ope = read; key = k }

abbrev writes : ℕ → Procedure
writes k = record { ope = write; key = k }

-- A transaction of one write, from the start to the end.
abbrev writer : ℕ → ℕ → List Turn
writer i k =
    begins i (writes k ∷ []) ∷ goes i ∷ goes i ∷ goes i ∷ goes i ∷ goes i ∷ goes i ∷ goes i ∷ []

-- Worker 0 has read tuple 5, worker 1 has written it and committed, and worker 0 owns the lock.
abbrev stale : Run 2
stale =
    run_turns
      (run_turns (two_workers (begins 0 (reads 5 ∷ writes 6 ∷ []) ∷ goes 0 ∷ goes 0 ∷ []))
        (writer 1 5))
      (goes 0 ∷ goes 0 ∷ [])

stale_table : (stale.shared.table 5 ≡ 2 ∷ []) × ((stale.workers 0).phase ≡ validating)
unfolding run_turns
stale_table = (refl, refl)

-- Worker 0 then gives up.
abbrev aborted : Run 2
aborted = run_turns stale (goes 0 ∷ goes 0 ∷ [])

aborted_worker : ((aborted.workers 0).phase ≡ idle) × ((aborted.workers 0).local_abort_counts ≡ 1)
unfolding run_turns
aborted_worker = (refl, refl)

-- The same, but worker 1 commits twice, and the second commit deletes the first write set.
abbrev collected : Run 2
collected =
    run_turns
      (run_turns (run_turns (two_workers (begins 0 (reads 7 ∷ []) ∷ goes 0 ∷ [])) (writer 1 5))
        (writer 1 6))
      (goes 0 ∷ goes 0 ∷ [])

collected_window : (base collected.shared ≡ 1) × ((collected.workers 0).tx.start_tx_id ≡ 0)
unfolding run_turns
collected_window = (refl, refl)

aborted_small : length aborted.log < 2 ^ 31
unfolding run_turns
aborted_small = ground arith

validated_serializable_example :
    (db : Db) × Serial zeros aborted.log db
    × ((k : ℕ)
        → ((i : ℕ) → i < 2 → pending_on k (aborted.workers i) ≡ 0)
        → db k ≡ aborted.shared.table k)
validated_serializable_example = validated_serializable aborted.reach aborted_small

stale_small : length stale.log < 2 ^ 31
unfolding run_turns
stale_small = ground arith

validation_exclusive_example : owns (stale.workers 1) ≡ 0
unfolding run_turns
validation_exclusive_example =
    validation_exclusive stale.reach stale_small 0 1 (omega arith) (omega arith) (omega arith) refl

validation_exact_example :
    (validation_phase stale.shared (stale.workers 0).tx ≡ some true
      → All (λ (x : SetElement). stale.shared.table x.key ≡ x.val) (stale.workers 0).tx.read_set)
    × (validation_phase stale.shared (stale.workers 0).tx ≡ some false
        → (k : ℕ) × (1 ≤ count k (keys (stale.workers 0).tx.read_set))
          × IsRewritten stale.log (stale.workers 0).tx.start_tx_id k)
unfolding run_turns
validation_exact_example = validation_exact stale.reach stale_small 0 (omega arith) refl

collected_small : length collected.log < 2 ^ 31
unfolding run_turns
collected_small = ground arith

validation_defined_example :
    (base collected.shared ≤ (collected.workers 0).tx.start_tx_id
      → validation_phase collected.shared (collected.workers 0).tx ≢ none)
    × ((collected.workers 0).tx.start_tx_id < base collected.shared
        → (collected.workers 0).tx.read_set ≢ []
        → validation_phase collected.shared (collected.workers 0).tx ≡ none)
unfolding run_turns
validation_defined_example = validation_defined collected.reach collected_small 0 (omega arith) refl
