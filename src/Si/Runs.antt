-- ===== src/Si/Runs.antt =====
-- Runs of two workers of si/, and the theorems about them.
use ccbench.Common.{
  ℕ, zero, suc, ◌^◌, ◌≤◌, ◌<◌, ◌≡◌, ◌≢◌, ◌⊎◌, refl, Bool, true, false, List, [], ◌∷◌, All, count,
  some, arith,
}
use ccbench.Procedure.{Payload, read, write, read_modify_write, Procedure}
use ccbench.Si.Types.{search_read_set, search_write_set, version, keys}
use ccbench.Si.Workers.{Phase, idle, faulted, proceed, start}
use ccbench.Si.System.{System, starts, runs, init, Reach, here, next}
use ccbench.Si.Invariant.{IsFlying, IsSeen}
use ccbench.Si.Safety.{updates, writers_apart, update_exclusive, reads_committed, never_faulted}
use native.Mathlib.Decide.{dec_lt}

abbrev zeros : ℕ → Payload
zeros k = 0 ∷ []

abbrev payloads : ℕ → Payload
payloads i = suc i ∷ []

record Run (cctr_on : Bool) : Type 0 where
  last : System
  open last use *
  reach : Reach cctr_on 2 zeros payloads last

-- One scheduled step; a thread between transactions stays there unless it is given procedures.
data Turn : Type 0 where
  begins : ℕ → List Procedure → Turn
  goes : ℕ → Turn

begin_at :
    {b : Bool} (s : System) (i : ℕ) (todo : List Procedure) (ph : Phase)
    → Reach b 2 zeros payloads s
    → i < 2
    → (s.workers i).phase ≡ ph
    → Run b
begin_at s i todo idle r lt e = record { last = _; reach = next r (starts i todo lt e) }
begin_at s i todo _ r lt e = record { last = s; reach = r }

turn : {b : Bool} → Run b → Turn → Run b
unfolding dec_lt begin_at
turn {b} r (begins i todo) = elim (dec_lt i 2) [
  | yes lt ↦ begin_at r.last i todo (r.workers i).phase r.reach lt refl
  | no _ ↦ r
]
turn {b} r (goes i) = elim (dec_lt i 2) [
  | yes lt ↦ record { last = _; reach = next r.reach (runs i lt) }
  | no _ ↦ r
]

run_turns : {b : Bool} → Run b → List Turn → Run b
unfolding turn proceed init start search_read_set search_write_set
run_turns r [] = r
run_turns r (t ∷ ts) = run_turns (turn r t) ts

abbrev two_workers : (b : Bool) → List Turn → Run b
two_workers b = run_turns (record { last = _; reach = here })

abbrev reads : ℕ → Procedure
reads k = record { ope = read; key = k }

abbrev writes : ℕ → Procedure
writes k = record { ope = write; key = k }

abbrev modifies : ℕ → Procedure
modifies k = record { ope = read_modify_write; key = k }

abbrev times : ℕ → ℕ → List Turn → List Turn
times zero i ts = ts
times (suc m) i ts = goes i ∷ times m i ts

-- With CCTR_ON: both workers begin to read and write tuple 5, worker 1 reads, worker 0 reads, writes and
-- commits, and worker 1 goes on to its end.
abbrev both_modify : Run true
both_modify = two_workers true (
    begins 1 (modifies 5 ∷ [])
    ∷ times 7 1 (begins 0 (modifies 5 ∷ []) ∷ times 18 0 (times 11 1 [])))

-- Both commit, although worker 1 has read the first version and overwrites that of worker 0.
lost_update :
    ((both_modify.workers 0).local_commit_counts ≡ 1)
    × ((both_modify.workers 1).local_commit_counts ≡ 1)
    × ((both_modify.workers 1).tx.return_val ≡ 0 ∷ [])
    × ((version both_modify.shared 5 (both_modify.shared.table 5).latest).committed_prev ≡ some 1)
    × ((version both_modify.shared 5 1).val ≡ 1 ∷ [])
unfolding run_turns
lost_update = (refl, refl, refl, refl, refl)

-- With CCTR_TW: worker 0 writes the tuples 5 and 6, takes its commit timestamp and has released tuple 5 when
-- worker 1 begins and reads both.
abbrev torn : Run false
torn = two_workers false (
    begins 0 (writes 5 ∷ writes 6 ∷ [])
    ∷ times 16 0 (begins 1 (reads 5 ∷ reads 6 ∷ []) ∷ times 8 1 []))

-- It finds the new version of the one and the first of the other, although the commit timestamp of both is
-- before its own `txid_`.
torn_snapshot :
    ((torn.workers 1).tx.read_set ≡ record { key = 5; ver = 1 } ∷ record { key = 6; ver = 0 } ∷ [])
    × ((torn.workers 0).tx.cstamp ≡ 2)
    × ((torn.workers 1).tx.txid ≡ 3)
unfolding run_turns
torn_snapshot = (refl, refl, refl)

-- Worker 0 has written tuple 5, and worker 1 has read it.
abbrev updating : Run true
updating =
    two_workers true (begins 1 (reads 5 ∷ []) ∷ times 7 1 (begins 0 (writes 5 ∷ []) ∷ times 9 0 []))

both_modify_short : both_modify.clock < 2 ^ 32
unfolding run_turns
both_modify_short = omega arith

updating_short : updating.clock < 2 ^ 32
unfolding run_turns
updating_short = omega arith

writers_apart_example :
    ((version both_modify.shared 5 1).began ≤ (version both_modify.shared 5 1).cstamp)
    × ((version both_modify.shared 5 2).began ≤ (version both_modify.shared 5 2).cstamp)
    × (((version both_modify.shared 5 1).cstamp ≤ (version both_modify.shared 5 2).began)
        ⊎ ((version both_modify.shared 5 2).cstamp ≤ (version both_modify.shared 5 1).began))
unfolding run_turns
writers_apart_example =
    writers_apart both_modify.reach both_modify_short 5 1 2 refl refl (omega arith)

update_exclusive_example :
    IsFlying (version updating.shared 5 (updating.shared.table 5).latest)
    × ((version updating.shared 5 (updating.shared.table 5).latest).owner ≡ 0)
    × ((version updating.shared 5 (updating.shared.table 5).latest).began
        ≡ (updating.workers 0).tx.txid)
    × ((j : ℕ)
        → j ≢ 0
        → count 5 (keys (updates (updating.workers j).phase (updating.workers j).tx)) ≡ 0)
unfolding run_turns
update_exclusive_example = update_exclusive updating.reach updating_short 0 5 (omega arith)

reads_committed_example :
    All (IsSeen updating.shared (updating.workers 1).tx.txid) (updating.workers 1).tx.read_set
reads_committed_example = reads_committed updating.reach updating_short 1

never_faulted_example : (updating.workers 1).phase ≢ faulted
never_faulted_example = never_faulted updating.reach updating_short 1
