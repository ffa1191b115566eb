-- ===== src/Tictoc/Tests.antt =====
-- The theorems about tictoc/ at concrete runs, and a run with `TIMESTAMP_HISTORY`.
use ccbench.Common.{
  ℕ, zero, suc, ◌-◌, ◌^◌, ◌≤◌, ◌<◌, ◌≡◌, refl, Bool, true, false, List, [], ◌∷◌, map, arith,
}
use ccbench.Procedure.{read, write, Procedure}
use ccbench.Serial.{Db, Serial}
use ccbench.Tictoc.Types.{rts, TsWord}
use ccbench.Tictoc.Operations.{
  begin, search_read_set, search_write_set, preemptive_aborts, same_word, add_read, write_key,
  sort_write_set, lock_tuple, raise_for_write, unlock_tuple, raise_for_reads, check_read, extended,
  extend_tuple, store_payload, store_word, clear_sets,
}
use ccbench.Timestamps.History.{Stamped, insert, commits, replay, IsSorted}
use ccbench.Tictoc.Workers.{
  Phase, idle, proceed, start, System, starts, runs, init, Reach, here, next,
}
use ccbench.Tictoc.World.{held_on, pending_on, claims_on}
use ccbench.Tictoc.Safety.{timestamp_serializable, word_lock_exclusive}
use ccbench.Tictoc.Words.{extended-exact, same_word_iff}
use native.Mathlib.Decide.{dec_lt}

abbrev zeros : Db
zeros k = 0 ∷ []

abbrev payloads : Db
payloads i = suc i ∷ []

record Run (timestamp_history : Bool) (n : ℕ) : Type 0 where
  steps : ℕ
  last : System
  open last use *
  reach : Reach timestamp_history n zeros payloads steps last

-- One scheduled step; a thread between transactions stays there unless it is given procedures.
data Turn : Type 0 where
  begins : ℕ → List Procedure → Turn
  goes : ℕ → Turn

begin_at :
    {b : Bool} {n m : ℕ} (s : System) (i : ℕ) (todo : List Procedure) (ph : Phase)
    → Reach b n zeros payloads m s
    → i < n
    → (s.workers i).phase ≡ ph
    → Run b n
begin_at s i todo idle r lt e = record { steps = _; last = _; reach = next r (starts i todo lt e) }
begin_at s i todo _ r lt e = record { steps = _; last = s; reach = r }

turn : {b : Bool} {n : ℕ} → Run b n → Turn → Run b n
unfolding dec_lt begin_at
turn {b} {n} r (begins i todo) = elim (dec_lt i n) [
  | yes lt ↦ begin_at r.last i todo (r.workers i).phase r.reach lt refl
  | no _ ↦ r
]
turn {b} {n} r (goes i) = elim (dec_lt i n) [
  | yes lt ↦ record { steps = _; last = _; reach = next r.reach (runs i lt) }
  | no _ ↦ r
]

run_turns : {b : Bool} {n : ℕ} → Run b n → List Turn → Run b n
unfolding turn proceed init start begin search_read_set search_write_set preemptive_aborts same_word
    add_read write_key sort_write_set lock_tuple raise_for_write unlock_tuple raise_for_reads
    check_read extended extend_tuple store_payload store_word clear_sets insert
run_turns r [] = r
run_turns r (t ∷ ts) = run_turns (turn r t) ts

abbrev two_workers : (b : Bool) → List Turn → Run b 2
two_workers b = run_turns (record { steps = 0; last = _; reach = here })

abbrev reads : ℕ → Procedure
reads k = record { ope = read; key = k }

abbrev writes : ℕ → Procedure
writes k = record { ope = write; key = k }

abbrev times : ℕ → ℕ → List Turn → List Turn
times zero i ts = ts
times (suc m) i ts = goes i ∷ times m i ts

-- A transaction of one write, from the start to the end.
abbrev writer : ℕ → ℕ → List Turn → List Turn
writer i k ts = begins i (writes k ∷ []) ∷ times 9 i ts

-- Worker 0 has read tuple 5 and will write tuple 6; then worker 1 writes tuple 5 twice, and worker 0
-- goes on to its end.
abbrev overtaken : (b : Bool) → Run b 2
overtaken b =
    two_workers b
      (begins 0 (reads 5 ∷ writes 6 ∷ []) ∷ times 5 0 (writer 1 5 (writer 1 5 (times 9 0 []))))

overtaken_aborts :
    (((overtaken false).workers 0).local_abort_counts ≡ 1)
    × (((overtaken false).table 5).val ≡ 2 ∷ [])
    × (((overtaken false).table 5).tsw.wts ≡ 2)
unfolding run_turns
overtaken_aborts = (refl, refl, refl)

-- With `TIMESTAMP_HISTORY`: worker 0 reads the first payload of tuple 5 and writes tuple 6, after worker
-- 1 has written both at timestamp 1, and tuple 5 twice more. Both transactions commit: one has to come
-- first for tuple 5, and the other for tuple 6.
abbrev skewed : Run true 2
skewed = two_workers true (
    begins 0 (reads 5 ∷ writes 6 ∷ [])
    ∷ times 4 0
        (begins 1 (writes 5 ∷ writes 6 ∷ []) ∷ times 14 1 (writer 1 5 (writer 1 5 (times 9 0 [])))))

skewed_commits :
    (map (λ (e : Stamped). e.ts) skewed.history ≡ 3 ∷ 2 ∷ 2 ∷ 1 ∷ [])
    × (map (λ (e : Stamped). e.commit.reads) skewed.history
        ≡ [] ∷ (record { key = 5; val = 0 ∷ [] } ∷ []) ∷ [] ∷ [] ∷ [])
    × (map (λ (e : Stamped). e.commit.writes) skewed.history
        ≡ (5 ∷ []) ∷ (6 ∷ []) ∷ (5 ∷ []) ∷ (5 ∷ 6 ∷ []) ∷ [])
    × ((skewed.table 6).val ≡ 1 ∷ [])
unfolding run_turns
skewed_commits = (refl, refl, refl, refl)

-- Worker 1 is about to store to tuple 5, and worker 0 has read it before.
abbrev storing_5 : Run false 2
storing_5 =
    two_workers false
      (begins 0 (reads 5 ∷ []) ∷ times 4 0 (begins 1 (writes 5 ∷ []) ∷ times 6 1 []))

overtaken_small : (overtaken false).steps < 2 ^ 48
unfolding run_turns
overtaken_small = omega arith

storing_5_small : storing_5.steps < 2 ^ 48
unfolding run_turns
storing_5_small = omega arith

timestamp_serializable_example :
    IsSorted (overtaken false).history
    × Serial zeros (commits (overtaken false).history) (replay zeros (overtaken false).history)
    × ((k : ℕ)
        → ((i : ℕ) → i < 2 → pending_on k ((overtaken false).workers i) ≡ 0)
        → replay zeros (overtaken false).history k ≡ ((overtaken false).table k).val)
timestamp_serializable_example = timestamp_serializable (overtaken false).reach overtaken_small

word_lock_exclusive_example :
    (held_on 5 (storing_5.workers 0) ≡ 0)
    × ((storing_5.table 5).tsw.lock ≡ true)
    × (1 ≤ claims_on 5 (storing_5.workers 1)
        → rts (storing_5.table 5).tsw < (storing_5.workers 1).tx.commit_ts)
unfolding run_turns
word_lock_exclusive_example =
    word_lock_exclusive storing_5.reach storing_5_small 1 0 5 (omega arith) (omega arith)
      (omega arith) (omega arith)

-- A word whose `delta` would overflow, and the same word held.
abbrev full_word : TsWord
full_word = record { lock = false; delta = 32767; wts = 5 }

abbrev held_word : TsWord
held_word = record { lock = true; delta = 32767; wts = 5 }

extended-exact_example :
    (rts (extended full_word 40000) ≡ 40000)
    × ((extended full_word 40000).lock ≡ false)
    × ((extended full_word 40000).delta < 2 ^ 15)
    × (5 ≤ (extended full_word 40000).wts)
    × (40000 - 5 < 2 ^ 15 → (extended full_word 40000).wts ≡ 5)
extended-exact_example = extended-exact full_word 40000 (omega arith) (omega arith)

same_word_iff_example :
    (same_word full_word held_word ≡ true
      → (full_word.lock ≡ false)
        × (held_word.lock ≡ false)
        × (full_word.delta ≡ held_word.delta)
        × (full_word.wts ≡ held_word.wts))
    × ((full_word.lock ≡ false)
          × (held_word.lock ≡ false)
          × (full_word.delta ≡ held_word.delta)
          × (full_word.wts ≡ held_word.wts)
        → same_word full_word held_word ≡ true)
same_word_iff_example = same_word_iff full_word held_word (omega arith) (omega arith)
