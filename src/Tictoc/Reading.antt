-- ===== src/Tictoc/Reading.antt =====
-- The read phase of tictoc/ keeps what a transaction knows about its read set.
use ccbench.Common.{
  ℕ, suc, ◌≤◌, ◌<◌, ◌≡◌, refl, sym, ◌∙◌, inl, inr, Bool, true, false, if◌then◌else◌, List,
  All-append, arith, Bool-cases,
}
use ccbench.Procedure.{Ope, read, write, read_modify_write, Procedure}
use ccbench.Serial.{Db}
use ccbench.Tictoc.Types.{TsWord, TransactionStatus, in_flight, committed, aborted, TxExecutor}
use ccbench.Tictoc.Operations.{
  search_read_set, search_write_set, preemptive_aborts, same_word, add_read, write_key, clear_sets,
  abort_status,
}
use ccbench.Tictoc.Workers.{
  Phase, idle, running, reading, copied, writing, Worker, System, after_status, after_read,
  calls_read, turns, compares, starts_operation,
}
use ccbench.Tictoc.World.{
  World, AllKnown, IsKnown, IsLoaded, held_on, pending_on, claims_on, IsSettled, IsSettled-grows,
}
use ccbench.Timestamps.Invariant.{free-quiet}
use ccbench.Tictoc.Invariant.{world, Inv, moved}
use ccbench.Tictoc.Calm.{calm_step}

-- The phases without locks and without a validated write.
abbrev pub is_early : Phase → Bool
is_early idle = true
is_early (running todo) = true
is_early (reading key b todo v1) = true
is_early (copied key b todo v1) = true
is_early (writing key todo) = true
is_early _ = false

-- A worker in such a phase, in a world.
pub record IsEarly (ω : World) (m : ℕ) (w : Worker) : Type 0 where
  pub early : is_early w.phase ≡ true
  pub commit_ts : w.tx.commit_ts ≤ m
  pub settled : IsSettled ω w.phase w.tx

early_lists :
    (k : ℕ) (w : Worker)
    → is_early w.phase ≡ true
    → (held_on k w ≡ 0) × (pending_on k w ≡ 0) × (claims_on k w ≡ 0)
early_lists k w h = ground arith

module _ {n : ℕ} {first : Db} {m : ℕ} {s : System} (inv : Inv n first m s) (i : ℕ)
    (lt : i < n) where
  pub early_step :
      (w' : Worker)
      → is_early (s.workers i).phase ≡ true
      → IsEarly (world n first s) m w'
      → Inv n first (suc m) (moved s i w' s.table s.history)
  early_step w' e p = calm_step inv i lt w' s.table (record {
    same_wts = λ k. refl;
    same_delta = λ k. refl;
    same_val = λ k h. refl;
    locks = λ k. omega (arith, early_lists k (s.workers i) e, early_lists k w' p.early);
    same_pending = λ k. omega (arith, early_lists k (s.workers i) e, early_lists k w' p.early);
    same_write = λ k h. absurd (omega (arith, h, early_lists k w' p.early));
    commit_ts = omega (arith, p.commit_ts);
    claimed = λ k h. absurd (omega (arith, h, early_lists k w' p.early));
    settled = λ grows.
        IsSettled-grows grows (λ k. omega arith) w'.phase w'.tx
          (λ k ts h. absurd (omega (arith, h, early_lists k w' p.early))) p.settled;
  })

  module _ (small : (s.workers i).tx.commit_ts ≤ m) where
    abbrev ω : World
    ω = world n first s

    after_status-IsEarly :
        (st : TransactionStatus) (w : Worker) (todo : List Procedure)
        → w.tx.commit_ts ≤ m
        → AllKnown ω w.tx.read_set
        → IsEarly ω m (after_status st w todo)
    unfolding clear_sets
    after_status-IsEarly aborted w todo le k = record {
      early = refl;
      commit_ts = le;
      settled = (refl, refl);
    }
    after_status-IsEarly in_flight w todo le k = record {
      early = refl;
      commit_ts = le;
      settled = k;
    }
    after_status-IsEarly committed w todo le k = record {
      early = refl;
      commit_ts = le;
      settled = k;
    }

    after_read-IsEarly :
        (w : Worker) (x : TxExecutor) (key : ℕ) (b : Bool) (todo : List Procedure)
        → x.commit_ts ≤ m
        → AllKnown ω x.read_set
        → IsEarly ω m (after_read w x key b todo)
    after_read-IsEarly w x key true todo le k = record { early = refl; commit_ts = le; settled = k }
    after_read-IsEarly w x key false todo le k =
        after_status-IsEarly x.status (record w { tx = x }) todo le k

    calls_read-IsEarly :
        (w : Worker) (key : ℕ) (b : Bool) (todo : List Procedure)
        → w.tx.commit_ts ≤ m
        → AllKnown ω w.tx.read_set
        → IsEarly ω m (calls_read s.table w key b todo)
    calls_read-IsEarly w key b todo le k =
        by_tests (search_read_set w.tx key) (search_write_set w.tx key)
      where
        again : Worker
        again = record w { phase = reading key b todo (s.table key).tsw }

        by_tests :
            (r v : Bool)
            → IsEarly ω m (
                if r
                then after_read w w.tx key b todo
                else if v
                then after_read w w.tx key b todo
                else again)
        by_tests true v = after_read-IsEarly w w.tx key b todo le k
        by_tests false true = after_read-IsEarly w w.tx key b todo le k
        by_tests false false = record {
          early = refl;
          commit_ts = le;
          settled = (k, (omega arith, omega arith, inv.words key));
        }

    pub starts_operation-IsEarly :
        (w : Worker) (p : Procedure) (todo : List Procedure)
        → w.tx.commit_ts ≤ m
        → AllKnown ω w.tx.read_set
        → IsEarly ω m (starts_operation s.table w p todo)
    starts_operation-IsEarly w p todo le k = dispatch p.ope
      where
        dispatch : (o : Ope) → IsEarly ω m (starts_operation s.table w (record p { ope = o }) todo)
        dispatch read = calls_read-IsEarly w p.key false todo le k
        dispatch write = record { early = refl; commit_ts = le; settled = k }
        dispatch read_modify_write = calls_read-IsEarly w p.key true todo le k

    pub turns-IsEarly :
        (w : Worker) (key : ℕ) (b : Bool) (todo : List Procedure) (v1 : TsWord)
        → w.tx.commit_ts ≤ m
        → AllKnown ω w.tx.read_set × IsLoaded ω key v1
        → IsEarly ω m (turns s.table w key b todo v1)
    turns-IsEarly w key b todo v1 le (k, l) = by_tests v1.lock (preemptive_aborts w.tx v1)
      where
        by_tests :
            (r v : Bool)
            → IsEarly ω m (
                if r
                then if v
                  then after_read w (abort_status w.tx) key b todo
                  else record w { phase = reading key b todo (s.table key).tsw }
                else record w {
                  tx = record w.tx { return_val = (s.table key).val };
                  phase = copied key b todo v1;
                })
        by_tests true true = after_read-IsEarly w (abort_status w.tx) key b todo le k
        by_tests true false = record {
          early = refl;
          commit_ts = le;
          settled = (k, (omega arith, omega arith, inv.words key));
        }
        by_tests false v = record { early = refl; commit_ts = le; settled = (k, l, λ e q. refl) }

    pub compares-IsEarly :
        (w : Worker) (key : ℕ) (b : Bool) (todo : List Procedure) (v1 : TsWord)
        → w.tx.commit_ts ≤ m
        → IsSettled ω (copied key b todo v1) w.tx
        → IsEarly ω m (compares s.table w key b todo v1)
    unfolding add_read same_word
    compares-IsEarly w key b todo v1 le (k, l, c) =
        elim (Bool-cases (same_word v1 (s.table key).tsw)) [
          | inl same ↦ rw same (
              after_read-IsEarly w (add_read w.tx key v1) key b todo le
                (All-append _ w.tx.read_set _ k (known (unlocked same), tt)))
          | inr other ↦ rw other (record {
            early = refl;
            commit_ts = le;
            settled = (k, (omega arith, omega arith, inv.words key));
          })
        ]
      where
        unlocked :
            same_word v1 (s.table key).tsw ≡ true
            → (v1.wts ≡ (s.table key).tsw.wts)
              × ((s.table key).tsw.lock ≡ false)
              × (v1.delta ≡ (s.table key).tsw.delta)
        unlocked same = ground (arith, same, l, inv.words key)

        known :
            (v1.wts ≡ (s.table key).tsw.wts)
              × ((s.table key).tsw.lock ≡ false)
              × (v1.delta ≡ (s.table key).tsw.delta)
            → IsKnown ω (record { key = key; val = w.tx.return_val; tsw = v1 })
        known (e, f, d) = record {
          wts_bound = l.0;
          rts_bound = l.1;
          value = λ ts lo up.
              inv.core.current key ts (free-quiet inv.core key f) (omega (arith, e, lo))
              ∙ sym (c e (free-quiet inv.core key f));
        }

    pub writing-IsEarly :
        (w : Worker) (key : ℕ) (todo : List Procedure)
        → w.tx.commit_ts ≤ m
        → AllKnown ω w.tx.read_set
        → IsEarly ω m (after_status w.tx.status (record w { tx = write_key s.table w.tx key }) todo)
    unfolding write_key
    writing-IsEarly w key todo le k = elim (Bool-cases (search_write_set w.tx key)) [
      | inl own ↦ rw own (after_status-IsEarly w.tx.status w todo le k)
      | inr fresh ↦ rw fresh (after_status-IsEarly w.tx.status _ todo le k)
    ]
