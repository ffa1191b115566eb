-- ===== src/Tictoc/Standing.antt =====
-- What is known of a worker of tictoc/ in its phase, and the steps that leave the table and the locks
-- alone.
use ccbench.Common.{ℕ, suc, ◌≤◌, ◌<◌, ◌≡◌, refl, ap, subst, arith}
use ccbench.Serial.{Db}
use ccbench.Tictoc.Workers.{Phase, Worker, System, Progress, advance}
use ccbench.Tictoc.World.{held_on, pending_on, claims_on, IsSettled, IsSettled-grows}
use ccbench.Tictoc.Invariant.{world, Inv, moved}
use ccbench.Tictoc.Calm.{calm_step}

module _ {n : ℕ} {first : Db} {m : ℕ} {s : System} (inv : Inv n first m s) (i : ℕ)
    (lt : i < n) where
  abbrev w : Worker
  w = s.workers i

  abbrev pub Result : Progress → Type 0
  Result p = Inv n first (suc m) (advance s i p)

  -- The facts about the phase that the worker is in.
  pub record At (ph : Phase) : Type 0 where
    pub here : w.phase ≡ ph
    pub held_as : (k : ℕ) → held_on k w ≡ held_on k (record w { phase = ph })
    pub pending_as : (k : ℕ) → pending_on k w ≡ pending_on k (record w { phase = ph })
    pub claims_as : (k : ℕ) → claims_on k w ≡ claims_on k (record w { phase = ph })
    pub settled : IsSettled (world n first s) ph w.tx
    pub bound : w.tx.commit_ts ≤ m

  pub at : (ph : Phase) → w.phase ≡ ph → At ph
  at ph e = record {
    here = e;
    held_as = λ k. ap (λ (p : Phase). held_on k (record w { phase = p })) e;
    pending_as = λ k. ap (λ (p : Phase). pending_on k (record w { phase = p })) e;
    claims_as = λ k. ap (λ (p : Phase). claims_on k (record w { phase = p })) e;
    settled = subst (λ (p : Phase). IsSettled (world n first s) p w.tx) e (inv.settled i lt);
    bound = inv.core.commit_ts i lt;
  }

  -- A step that leaves the table and the locks alone.
  pub still :
      {ph : Phase} (w' : Worker)
      → At ph
      → ((k : ℕ) → held_on k w' ≡ held_on k (record w { phase = ph }))
      → ((k : ℕ) → pending_on k w' ≡ 0)
      → ((k : ℕ) → pending_on k (record w { phase = ph }) ≡ 0)
      → w'.tx.commit_ts ≤ m
      → ((k : ℕ)
          → 1 ≤ claims_on k w'
          → (1 ≤ claims_on k (record w { phase = ph })) × (w.tx.commit_ts ≤ w'.tx.commit_ts))
      → IsSettled (world n first s) w'.phase w'.tx
      → Inv n first (suc m) (moved s i w' s.table s.history)
  still w' a h p q c cl se = calm_step inv i lt w' s.table (record {
    same_wts = λ k. refl;
    same_delta = λ k. refl;
    same_val = λ k z. refl;
    locks = λ k. omega (arith, h k, a.held_as k);
    same_pending = λ k. omega (arith, p k, q k, a.pending_as k);
    same_write = λ k z. absurd (omega (arith, z, p k));
    commit_ts = omega (arith, c);
    claimed = λ k z.
        omega (arith, cl k z, inv.core.claimed i k lt (omega (arith, cl k z, a.claims_as k)));
    settled = λ grows.
        IsSettled-grows grows (λ k. omega arith) w'.phase w'.tx (λ k ts z. (refl, refl)) se;
  })
