-- ===== src/Silo/Invariant.antt =====
-- The invariant that relates every interleaving of the workers of silo/ to a serial history, and what a
-- step has to keep for it to hold again.
use ccbench.Common.{ℕ, suc, ◌+◌, ◌^◌, ◌≤◌, ◌<◌, ◌≡◌, refl, true, arith}
use ccbench.Common.Family.{sum_of, sum_of-assign}
use ccbench.Serial.{Db}
use ccbench.Timestamps.History.{state_at}
use ccbench.Timestamps.Protocol.{View}
use ccbench.Timestamps.Invariant
use ccbench.Common.Family.{at_each}
use ccbench.Timestamps.Advance.{other-held}
use ccbench.Timestamps.Calm.{calm_step}
use ccbench.Silo.Tidword.{version}
use ccbench.Silo.Workers.{Worker, Progress, moves}
use ccbench.Silo.System.{System, advance}
use ccbench.Silo.World.{World, Grows, Keeps, IsSettled}
use ccbench.Silo.Holding.{silo, held_on, claims_on, pending_on}
use ccbench.Silo.Growing.{IsSettled-grows}

abbrev pub view : System → View silo
view s = record {
  cells = λ k. record {
    lock = (s.shared.table k).tidword.lock;
    wts = (s.shared.stamps k).wts;
    rts = (s.shared.stamps k).rts;
    val = (s.shared.table k).val;
  };
  workers = s.workers;
  history = s.history;
}

abbrev pub world : ℕ → Db → System → World
world n first s = record {
  ver = λ k. version (s.shared.table k).tidword;
  wts = λ k. (s.shared.stamps k).wts;
  rts = λ k. (s.shared.stamps k).rts;
  val = λ k. (s.shared.table k).val;
  pend = λ k. sum_of (pending_on k) n s.workers;
  at = λ ts k. state_at first s.history ts k;
}

-- No TID field is at its largest value, and the epochs fit their field.
pub record IsRoomy (s : System) : Type 0 where
  pub words : (k : ℕ) → (s.shared.table k).tidword.tid + 1 < 2 ^ 29
  pub last : (i : ℕ) → (s.workers i).tx.mrctid.tid + 1 < 2 ^ 29
  pub epochs : (i : ℕ) → (s.workers i).tx.local_epoch < 2 ^ 32

pub record Inv (n : ℕ) (first : Db) (s : System) : Type 0 where
  pub core : Invariant.Inv silo n first s.clock (view s)
  pub settled :
      (i : ℕ)
      → i < n
      → IsSettled (world n first s) (s.workers i).phase (s.workers i).tx (s.workers i).ticket

module _ {n : ℕ} {first : Db} {s : System} (inv : Inv n first s) (i : ℕ) (lt : i < n) where
  abbrev pub w : Worker
  w = s.workers i

  pub go :
      (p : Progress)
      → Invariant.Inv silo n first (suc s.clock) (view (advance s i p))
      → ((k : ℕ) → Grows (world n first s) (world n first (advance s i p)) k)
      → ((k : ℕ)
          → held_on k w ≡ 0
          → (s.shared.table k).tidword.lock ≡ true
          → Keeps (world n first s) (world n first (advance s i p)) k)
      → IsSettled (world n first (advance s i p)) p.worker.phase p.worker.tx p.worker.ticket
      → Inv n first (advance s i p)
  go p core grows foreign settled = record {
    core = core;
    settled = λ j hj.
        at_each (λ (x : Worker). IsSettled (world n first (advance s i p)) x.phase x.tx x.ticket)
          s.workers i p.worker j settled
          (λ other.
            IsSettled-grows grows (s.workers j).phase (s.workers j).tx (s.workers j).ticket
              (λ k h.
                let (free, locked) = other-held inv.core i lt j k hj other h in
                foreign k free locked)
              (inv.settled j hj));
  }

  -- A step that leaves the table and the locks alone, by a worker without a decided transaction.
  pub still :
      (w' : Worker) (e : ℕ)
      → ((k : ℕ) → held_on k w' ≡ held_on k w)
      → ((k : ℕ) → pending_on k w' ≡ 0)
      → ((k : ℕ) → pending_on k w ≡ 0)
      → w'.ticket ≤ suc s.clock
      → ((k : ℕ) → 1 ≤ claims_on k w' → (s.shared.stamps k).rts < w'.ticket)
      → IsSettled (world n first s) w'.phase w'.tx w'.ticket
      → Inv n first (advance s i (moves (record s.shared { global_epoch = e }) w'))
  still w' e h p q c cl se =
      go (moves (record s.shared { global_epoch = e }) w')
        (calm_step inv.core i lt w' (view s).cells (record {
          wts_up = λ k. omega arith;
          rts_up = λ k. omega arith;
          range = inv.core.range;
          table_ts = λ k. omega (arith, inv.core.table_ts k);
          frozen = λ k z l. refl;
          same_val = λ k z. refl;
          locks = λ k. omega (arith, h k);
          same_pending = λ k. omega (arith, p k, q k);
          same_write = λ k z. absurd (omega (arith, z, p k));
          commit_ts = c;
          claimed = cl;
        }))
        grows (λ k z l. record { ver = refl; val = refl; at = λ ts. refl })
        (IsSettled-grows grows w'.phase w'.tx w'.ticket
          (λ k z. record { ver = refl; val = refl; at = λ ts. refl }) se)
    where
      grows :
          (k : ℕ)
          → Grows
              (world n first s)
              (world n first (advance s i (moves (record s.shared { global_epoch = e }) w')))
              k
      grows k = record {
        ver = omega arith;
        rts = omega arith;
        same_wts = λ v. omega arith;
        past = λ ts le. refl;
        payload = λ v quiet. (
          omega (arith, quiet, p k, q k, sum_of-assign (pending_on k) n s.workers i w' lt),
          refl,
        );
      }
