-- ===== src/Silo/Runs.antt =====
-- The theorems about the workers of silo/ at concrete runs of two workers.
use ccbench.Common.{ℕ, zero, suc, ◌^◌, ◌≤◌, ◌<◌, ◌≡◌, refl, true, List, [], ◌∷◌, map, arith}
use ccbench.Procedure.{read, write, read_modify_write, Procedure}
use ccbench.Serial.{Db, Serial}
use ccbench.Timestamps.History.{Stamped, insert, commits, replay, IsSorted}
use ccbench.Silo.Tidword.{obj, max_word, next_tid, choose_tid}
use ccbench.Silo.Operations.{begin, abort, search_read_set, search_write_set, write_key, is_current}
use ccbench.Silo.Workers.{Phase, idle, proceed, start}
use ccbench.Silo.System.{System, starts, leads, runs, init, Reach, here, next, local_epochs}
use ccbench.Silo.Holding.{held_on, pending_on}
use ccbench.Silo.Room.{short-HadRoom}
use ccbench.Silo.Safety.{ticket_serializable, tid_lock_exclusive}
use ccbench.Silo.Epochs.{epoch_lag}
use native.Mathlib.Decide.{dec_lt}

abbrev zeros : Db
zeros k = 0 ∷ []

abbrev payloads : Db
payloads i = suc i ∷ []

record Run : Type 0 where
  last : System
  open last use *
  reach : Reach 2 zeros payloads last

-- One scheduled step; only a thread between transactions begins one, or is the leader.
data Turn : Type 0 where
  begins : ℕ → List Procedure → Turn
  asks : Turn
  goes : ℕ → Turn

begin_at :
    (s : System) (i : ℕ) (todo : List Procedure) (ph : Phase)
    → Reach 2 zeros payloads s
    → i < 2
    → (s.workers i).phase ≡ ph
    → Run
begin_at s i todo idle r lt e = record { last = _; reach = next r (starts i todo lt e) }
begin_at s i todo _ r lt e = record { last = s; reach = r }

lead_at : (s : System) (ph : Phase) → Reach 2 zeros payloads s → (s.workers 0).phase ≡ ph → Run
lead_at s idle r e = record { last = _; reach = next r (leads (omega arith) e) }
lead_at s _ r e = record { last = s; reach = r }

turn : Run → Turn → Run
unfolding dec_lt begin_at lead_at
turn r (begins i todo) = elim (dec_lt i 2) [
  | yes lt ↦ begin_at r.last i todo (r.workers i).phase r.reach lt refl
  | no _ ↦ r
]
turn r asks = lead_at r.last (r.workers 0).phase r.reach refl
turn r (goes i) = elim (dec_lt i 2) [
  | yes lt ↦ record { last = _; reach = next r.reach (runs i lt) }
  | no _ ↦ r
]

run_turns : Run → List Turn → Run
unfolding turn proceed init start begin abort search_read_set search_write_set write_key is_current
    max_word obj next_tid choose_tid insert
run_turns r [] = r
run_turns r (t ∷ ts) = run_turns (turn r t) ts

abbrev two_workers : List Turn → Run
two_workers = run_turns (record { last = _; reach = here })

abbrev reads : ℕ → Procedure
reads k = record { ope = read; key = k }

abbrev writes : ℕ → Procedure
writes k = record { ope = write; key = k }

abbrev modifies : ℕ → Procedure
modifies k = record { ope = read_modify_write; key = k }

abbrev times : ℕ → ℕ → List Turn → List Turn
times zero i ts = ts
times (suc m) i ts = goes i ∷ times m i ts

-- A transaction of one write, from the start to the end.
abbrev writer : ℕ → ℕ → List Turn → List Turn
writer i k ts = begins i (writes k ∷ []) ∷ times 10 i ts

-- Worker 0 has read tuple 5 and will write tuple 6; then worker 1 writes tuple 5, and worker 0 goes on to
-- its end, and then reads and writes tuple 5.
abbrev overtaken : Run
overtaken = two_workers (
    begins 0 (reads 5 ∷ writes 6 ∷ [])
    ∷ times 5 0 (writer 1 5 (times 7 0 (begins 0 (modifies 5 ∷ []) ∷ times 15 0 []))))

overtaken_ends :
    ((overtaken.workers 0).local_abort_counts ≡ 1)
    × ((overtaken.workers 0).local_commit_counts ≡ 1)
    × ((overtaken.workers 1).local_commit_counts ≡ 1)
    × ((overtaken.shared.table 5).val ≡ 1 ∷ [])
    × ((overtaken.shared.table 5).tidword.tid ≡ 2)
    × (map (λ (e : Stamped). e.commit.writes) overtaken.history ≡ (5 ∷ []) ∷ (5 ∷ []) ∷ [])
unfolding run_turns
overtaken_ends = (refl, refl, refl, refl, refl, refl)

-- Worker 1 has locked tuple 5 and is about to store to it, and worker 0 has read it before.
abbrev storing_5 : Run
storing_5 =
    two_workers (begins 0 (reads 5 ∷ []) ∷ times 3 0 (begins 1 (writes 5 ∷ []) ∷ times 8 1 []))

-- Both workers have committed, worker 1 last in epoch 1, and the leader has raised `GlobalEpoch`.
abbrev led : Run
led = two_workers (writer 0 5 (writer 1 5 (asks ∷ times 2 0 (writer 0 5 []))))

led_epochs :
    (led.shared.global_epoch ≡ 2)
    × (local_epochs led.last 0 ≡ 2)
    × (local_epochs led.last 1 ≡ 1)
    × ((led.shared.table 5).tidword.epoch ≡ 2)
unfolding run_turns
led_epochs = (refl, refl, refl, refl)

overtaken_short : overtaken.clock < 2 ^ 29
unfolding run_turns
overtaken_short = omega arith

storing_5_short : storing_5.clock < 2 ^ 29
unfolding run_turns
storing_5_short = omega arith

ticket_serializable_example :
    IsSorted overtaken.history
    × Serial zeros (commits overtaken.history) (replay zeros overtaken.history)
    × ((k : ℕ)
        → ((i : ℕ) → i < 2 → pending_on k (overtaken.workers i) ≡ 0)
        → replay zeros overtaken.history k ≡ (overtaken.shared.table k).val)
ticket_serializable_example =
    ticket_serializable overtaken.reach (short-HadRoom overtaken.reach overtaken_short)

tid_lock_exclusive_example :
    (held_on 5 (storing_5.workers 0) ≡ 0) × ((storing_5.shared.table 5).tidword.lock ≡ true)
unfolding run_turns
tid_lock_exclusive_example =
    tid_lock_exclusive storing_5.reach (short-HadRoom storing_5.reach storing_5_short) 1 0 5
      (omega arith) (omega arith) (omega arith) (omega arith)

epoch_lag_example :
    ((i : ℕ) → local_epochs led.last i ≤ led.shared.global_epoch)
    × ((i : ℕ) → 1 ≤ i → i < 2 → led.shared.global_epoch ≤ suc (local_epochs led.last i))
epoch_lag_example = epoch_lag led.reach
