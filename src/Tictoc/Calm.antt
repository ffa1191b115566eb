-- ===== src/Tictoc/Calm.antt =====
-- The steps of tictoc/ that change no timestamp and log nothing: they lock, unlock, copy a payload or
-- only go on.
use ccbench.Common.{ℕ, suc, ◌+◌, ◌≤◌, ◌<◌, ◌≡◌, refl, sym, ap, ◌∙◌, arith}
use ccbench.Common.Family.{sum_of-assign, le-sum_of}
use ccbench.Serial.{Db}
use ccbench.Timestamps.History.{state_at}
use ccbench.Timestamps.Protocol.{bit}
use ccbench.Timestamps.Calm
use ccbench.Tictoc.Types.{Table, rts}
use ccbench.Tictoc.Workers.{Worker, System}
use ccbench.Tictoc.World.{Grows, held_on, pending_on, claims_on, IsSettled}
use ccbench.Tictoc.Invariant.{
  world, cells, Inv, moved, Keeps-Inv, pending-le-claims_on, claims-le-held_on,
}

module _ {n : ℕ} {first : Db} {m : ℕ} {s : System} (inv : Inv n first m s) (i : ℕ)
    (lt : i < n) where
  pub record IsCalm (w' : Worker) (t' : Table) : Type 0 where
    pub same_wts : (k : ℕ) → (t' k).tsw.wts ≡ (s.table k).tsw.wts
    pub same_delta : (k : ℕ) → (t' k).tsw.delta ≡ (s.table k).tsw.delta
    pub same_val : (k : ℕ) → pending_on k w' ≡ 0 → (t' k).val ≡ (s.table k).val
    pub locks :
        (k : ℕ)
        → held_on k w' + bit (s.table k).tsw.lock ≡ held_on k (s.workers i) + bit (t' k).tsw.lock
    pub same_pending : (k : ℕ) → pending_on k w' ≡ pending_on k (s.workers i)
    pub same_write :
        (k : ℕ)
        → 1 ≤ pending_on k w'
        → (w'.tx.commit_ts ≡ (s.workers i).tx.commit_ts)
          × (w'.tx.write_val ≡ (s.workers i).tx.write_val)
    pub commit_ts : w'.tx.commit_ts ≤ suc m
    pub claimed : (k : ℕ) → 1 ≤ claims_on k w' → rts (s.table k).tsw < w'.tx.commit_ts
    pub settled :
        ((k : ℕ) → Grows (world n first s) (world n first (moved s i w' t' s.history)) k)
        → IsSettled (world n first (moved s i w' t' s.history)) w'.phase w'.tx

  module _ (w' : Worker) (t' : Table) (p : IsCalm w' t') where
    grows : (k : ℕ) → Grows (world n first s) (world n first (moved s i w' t' s.history)) k
    grows k = record {
      wts = omega (arith, p.same_wts k);
      rts = omega (arith, p.same_delta k, p.same_wts k);
      past = λ ts le. refl;
      stay = λ e ts lo hi. inv.level k ts lo (omega (arith, hi, p.same_delta k, p.same_wts k));
      payload = λ e quiet.
          let all = sum_of-assign (pending_on k) n s.workers i w' lt in
          let own = le-sum_of (pending_on k) n s.workers i lt in
          (
            omega (arith, quiet, p.same_pending k, all, own),
            p.same_val k (omega (arith, quiet, p.same_pending k, all, own)),
          );
    }

    pub calm_step : Inv n first (suc m) (moved s i w' t' s.history)
    calm_step =
        Keeps-Inv inv i lt w' t' s.history
          (Calm.calm_step inv.core i lt w' (cells t') (record {
            wts_up = λ k. omega (arith, p.same_wts k);
            rts_up = λ k. omega (arith, p.same_delta k, p.same_wts k);
            range = λ k. omega arith;
            table_ts = λ k. omega (arith, inv.core.table_ts k, p.same_delta k, p.same_wts k);
            frozen = λ k h l. omega (arith, p.same_delta k, p.same_wts k);
            same_val = p.same_val;
            locks = p.locks;
            same_pending = p.same_pending;
            same_write = p.same_write;
            commit_ts = p.commit_ts;
            claimed = λ k h. omega (arith, p.same_delta k, p.same_wts k, p.claimed k h);
          }))
          (record {
            words = λ k. omega (arith, inv.words k, p.same_delta k);
            level = λ k ts lo hi.
                inv.level k ts (omega (arith, p.same_wts k))
                  (omega (arith, p.same_delta k, p.same_wts k))
                ∙ ap (λ (x : ℕ). state_at first s.history x k) (sym (p.same_wts k));
            grows = grows;
            others = λ k ts h l. (
              refl,
              p.same_val k (
                  omega (
                    arith,
                    h,
                    p.same_pending k,
                    pending-le-claims_on k (s.workers i),
                    claims-le-held_on k (s.workers i),
                  )),
            );
            settled = p.settled grows;
          })
