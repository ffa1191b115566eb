-- ===== src/Tictoc/Invariant.antt =====
-- The invariant that relates every interleaving of the workers of tictoc/ to a serial history, as an
-- instance of Timestamps, and what a step has to keep for it to hold again.
use ccbench.Common.{ℕ, suc, ◌^◌, ◌≤◌, ◌<◌, ◌≡◌, true, List, arith}
use ccbench.Common.Family.{assign, sum_of}
use ccbench.Serial.{Db}
use ccbench.Timestamps.History.{Stamped, state_at}
use ccbench.Timestamps.Protocol.{Cell, Protocol, View}
use ccbench.Timestamps.Invariant
use ccbench.Common.Family.{at_each}
use ccbench.Timestamps.Advance.{other-held}
use ccbench.Tictoc.Types.{rts, Table}
use ccbench.Tictoc.Workers.{Worker, System}
use ccbench.Tictoc.World.{World, Grows, held_on, pending_on, claims_on, IsSettled, IsSettled-grows}

pub pending-le-claims_on : (k : ℕ) (w : Worker) → pending_on k w ≤ claims_on k w
pending-le-claims_on k w = ground arith

pub claims-le-held_on : (k : ℕ) (w : Worker) → claims_on k w ≤ held_on k w
claims-le-held_on k w = ground arith

abbrev pub tictoc : Protocol
tictoc = record {
  Worker = Worker;
  held = held_on;
  claims = claims_on;
  pending = pending_on;
  ts = λ w. w.tx.commit_ts;
  payload = λ w. w.tx.write_val;
  pending-le-claims = pending-le-claims_on;
  claims-le-held = claims-le-held_on;
}

abbrev pub cells : Table → ℕ → Cell
cells t k = record {
  lock = (t k).tsw.lock;
  wts = (t k).tsw.wts;
  rts = rts (t k).tsw;
  val = (t k).val;
}

abbrev pub view : System → View tictoc
view s = record { cells = cells s.table; workers = s.workers; history = s.history }

abbrev pub world : ℕ → Db → System → World
world n first s = record {
  wts = λ k. (s.table k).tsw.wts;
  rts = λ k. rts (s.table k).tsw;
  val = λ k. (s.table k).val;
  pend = λ k. sum_of (pending_on k) n s.workers;
  at = λ ts k. state_at first s.history ts k;
}

-- From `wts` to `rts` the database holds one payload.
abbrev pub IsLevel : Db → System → ℕ → Type 0
IsLevel first s k =
    (ts : ℕ)
    → (s.table k).tsw.wts ≤ ts
    → ts ≤ rts (s.table k).tsw
    → state_at first s.history ts k ≡ state_at first s.history (s.table k).tsw.wts k

pub record Inv (n : ℕ) (first : Db) (m : ℕ) (s : System) : Type 0 where
  pub core : Invariant.Inv tictoc n first m (view s)
  pub words : (k : ℕ) → (s.table k).tsw.delta < 2 ^ 15
  pub level : (k : ℕ) → IsLevel first s k
  pub settled : (i : ℕ) → i < n → IsSettled (world n first s) (s.workers i).phase (s.workers i).tx

-- The state after worker `i` has moved.
abbrev pub moved : System → ℕ → Worker → Table → List Stamped → System
moved s i w' t' h' = record { table = t'; workers = assign s.workers i w'; history = h' }

module _ {n : ℕ} {first : Db} {m : ℕ} {s : System} (inv : Inv n first m s) (i : ℕ)
    (lt : i < n) where
  -- What a step keeps beside the invariant of Timestamps.
  pub record Keeps (w' : Worker) (t' : Table) (h' : List Stamped) : Type 0 where
    pub words : (k : ℕ) → (t' k).tsw.delta < 2 ^ 15
    pub level : (k : ℕ) → IsLevel first (moved s i w' t' h') k
    pub grows : (k : ℕ) → Grows (world n first s) (world n first (moved s i w' t' h')) k
    pub others :
        (k ts : ℕ)
        → held_on k (s.workers i) ≡ 0
        → (s.table k).tsw.lock ≡ true
        → (state_at first h' ts k ≡ state_at first s.history ts k) × ((t' k).val ≡ (s.table k).val)
    pub settled : IsSettled (world n first (moved s i w' t' h')) w'.phase w'.tx

  pub Keeps-Inv :
      (w' : Worker) (t' : Table) (h' : List Stamped)
      → Invariant.Inv tictoc n first (suc m) (view (moved s i w' t' h'))
      → Keeps w' t' h'
      → Inv n first (suc m) (moved s i w' t' h')
  Keeps-Inv w' t' h' core p = record {
    core = core;
    words = p.words;
    level = p.level;
    settled = λ j hj.
        at_each (λ (w : Worker). IsSettled (world n first (moved s i w' t' h')) w.phase w.tx)
          s.workers i w' j p.settled
          (λ other.
            IsSettled-grows p.grows (λ k. omega arith) (s.workers j).phase (s.workers j).tx
              (λ k ts h.
                let (free, locked) =
                  other-held inv.core i lt j k hj other
                    (omega (arith, claims-le-held_on k (s.workers j))) in
                p.others k ts free locked)
              (inv.settled j hj));
  }
