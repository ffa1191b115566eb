-- ===== src/Silo/Reading.antt =====
-- The read phase of silo/, and the rounds of `chkEpochLoaded`, keep what a transaction knows.
use ccbench.Common.{
  ℕ, suc, ◌≤◌, ◌<◌, ◌≡◌, refl, inl, inr, Bool, true, false, ◌==◌, ◌||◌, List, [], All-append, arith,
  Bool-cases, if_both,
}
use ccbench.Procedure.{Ope, read, write, read_modify_write, Procedure, Payload}
use ccbench.Serial.{Db}
use ccbench.Silo.Tidword.{Tidword, obj}
use ccbench.Silo.Operations.{TxnExecutor, search_read_set, search_write_set, write_key}
use ccbench.Silo.Workers.{
  Phase, idle, leading, running, reading, copied, writing, Worker, moves, after_read, calls_read,
  turns, compares, add_read, starts_operation,
}
use ccbench.Silo.System.{System, advance}
use ccbench.Silo.World.{World, IsRunning, IsSettled}
use ccbench.Silo.Holding.{held_on, pending_on, claims_on}
use ccbench.Silo.Invariant.{world, Inv, still}

-- The phases without locks and without a decided transaction.
abbrev pub is_early : Phase → Bool
is_early idle = true
is_early (leading thread e) = true
is_early (running todo) = true
is_early (reading key b todo v) = true
is_early (copied key b todo v val) = true
is_early (writing key todo) = true
is_early _ = false

-- A worker in such a phase, in a world.
pub record IsEarly (ω : World) (m : ℕ) (w : Worker) : Type 0 where
  pub early : is_early w.phase ≡ true
  pub ticket : w.ticket ≤ m
  pub settled : IsSettled ω w.phase w.tx w.ticket

early_lists :
    (k : ℕ) (w : Worker)
    → is_early w.phase ≡ true
    → (held_on k w ≡ 0) × (pending_on k w ≡ 0) × (claims_on k w ≡ 0)
early_lists k w h = ground arith

module _ {n : ℕ} {first : Db} {s : System} (inv : Inv n first s) (i : ℕ) (lt : i < n) where
  pub early_step :
      (w' : Worker) (e : ℕ)
      → is_early (s.workers i).phase ≡ true
      → IsEarly (world n first s) (suc s.clock) w'
      → Inv n first (advance s i (moves (record s.shared { global_epoch = e }) w'))
  early_step w' e early p =
      still inv i lt w' e
        (λ k. omega (arith, early_lists k (s.workers i) early, early_lists k w' p.early))
        (λ k. omega (arith, early_lists k w' p.early))
        (λ k. omega (arith, early_lists k (s.workers i) early)) p.ticket
        (λ k h. absurd (omega (arith, h, early_lists k w' p.early))) p.settled

module _ {n : ℕ} {first : Db} {s : System} (inv : Inv n first s) where
  abbrev ω : World
  ω = world n first s

  abbrev m : ℕ
  m = suc s.clock

  after_read-IsEarly :
      (w : Worker) (x : TxnExecutor) (key : ℕ) (b : Bool) (todo : List Procedure)
      → w.ticket ≤ m
      → IsRunning ω x
      → IsEarly ω m (after_read w x key b todo)
  after_read-IsEarly w x key true todo le k = record { early = refl; ticket = le; settled = k }
  after_read-IsEarly w x key false todo le k = record { early = refl; ticket = le; settled = k }

  calls_read-IsEarly :
      (w : Worker) (key : ℕ) (b : Bool) (todo : List Procedure)
      → w.ticket ≤ m
      → IsRunning ω w.tx
      → IsEarly ω m (calls_read s.shared.table w key b todo)
  calls_read-IsEarly w key b todo le k =
      if_both (IsEarly ω m) (search_read_set w.tx key || search_write_set w.tx key) _ _
        (after_read-IsEarly w w.tx key b todo le k)
        (record { early = refl; ticket = le; settled = (k, omega arith) })

  pub starts_operation-IsEarly :
      (w : Worker) (p : Procedure) (todo : List Procedure)
      → w.ticket ≤ m
      → IsRunning ω w.tx
      → IsEarly ω m (starts_operation s.shared.table w p todo)
  starts_operation-IsEarly w p todo le k = dispatch p.ope
    where
      dispatch :
          (o : Ope) → IsEarly ω m (starts_operation s.shared.table w (record p { ope = o }) todo)
      dispatch read = calls_read-IsEarly w p.key false todo le k
      dispatch write = record { early = refl; ticket = le; settled = k }
      dispatch read_modify_write = calls_read-IsEarly w p.key true todo le k

  pub turns-IsEarly :
      (w : Worker) (key : ℕ) (b : Bool) (todo : List Procedure) (v : Tidword)
      → w.ticket ≤ m
      → IsSettled ω (reading key b todo v) w.tx w.ticket
      → IsEarly ω m (turns s.shared.table w key b todo v)
  turns-IsEarly w key b todo v le k =
      if_both (IsEarly ω m) v.lock _ _
        (record { early = refl; ticket = le; settled = (k.0, omega arith) })
        (record {
          early = refl;
          ticket = le;
          settled = (k.0, record { bound = k.1; value = λ e q. refl });
        })

  pub compares-IsEarly :
      (w : Worker) (key : ℕ) (b : Bool) (todo : List Procedure) (v : Tidword) (val : Payload)
      → w.ticket ≤ m
      → IsSettled ω (copied key b todo v val) w.tx w.ticket
      → IsEarly ω m (compares s.shared.table w key b todo v val)
  compares-IsEarly w key b todo v val le (k, f) =
      if_both (IsEarly ω m) (obj v == obj (s.shared.table key).tidword) _ _
        (after_read-IsEarly w (add_read w.tx key v val) key b todo le (record {
          known = All-append _ w.tx.read_set _ k.known (f, tt);
          room = k.room;
          plain = k.plain;
        }))
        (record { early = refl; ticket = le; settled = (k, omega arith) })

  pub writing-IsEarly :
      (w : Worker) (key : ℕ) (todo : List Procedure)
      → w.ticket ≤ m
      → IsRunning ω w.tx
      → IsEarly ω m (record w { tx = write_key w.tx key []; phase = running todo })
  unfolding write_key
  writing-IsEarly w key todo le k = elim (Bool-cases (search_write_set w.tx key)) [
    | inl own ↦ rw own (record { early = refl; ticket = le; settled = k })
    | inr fresh ↦ rw fresh (record {
      early = refl;
      ticket = le;
      settled = record {
        known = k.known;
        room = k.room;
        plain = All-append _ w.tx.write_set _ k.plain (refl, tt);
      };
    })
  ]
