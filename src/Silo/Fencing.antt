-- ===== src/Silo/Fencing.antt =====
-- The steps of silo/ between the last lock and phase 2 of the validation: the load of the epoch and its
-- store.
use ccbench.Common.{ℕ, suc, ◌<◌, ◌≡◌, refl, sym, ap, subst, ◌∙◌, List, [], All-map, count, arith}
use mathlib.Core.List.{append-nil}
use ccbench.Serial.{Db}
use ccbench.Silo.Tidword.{version}
use ccbench.Silo.Operations.{Table, ReadElement, WriteElement, write_keys}
use ccbench.Silo.Workers.{Worker, goes_to, locking, fenced, validating}
use ccbench.Silo.System.{System, advance}
use ccbench.Silo.World.{World, AreBelow}
use ccbench.Silo.Invariant.{world, Inv, still}
use ccbench.Silo.Locking.{At}

module _ {n : ℕ} {first : Db} {s : System} (inv : Inv n first s) (i : ℕ) (lt : i < n) where
  abbrev w : Worker
  w = s.workers i

  abbrev t : Table
  t = s.shared.table

  abbrev ω : World
  ω = world n first s

  -- The ticket is taken once all locks are.
  pub fence_step :
      (done : List WriteElement)
      → At inv i lt (locking done [])
      → Inv n first (
          advance s i
            (goes_to s.shared (record w { ticket = suc s.clock }) (fenced s.shared.global_epoch)))
  fence_step done a =
      still inv i lt (record w { ticket = suc s.clock; phase = fenced s.shared.global_epoch })
        s.shared.global_epoch (λ k. omega (arith, a.held_as k, same k)) (λ k. refl)
        (λ k. omega (arith, a.pending_as k)) (omega arith)
        (λ k z. omega (arith, inv.core.table_ts k))
        (record {
          dated =
              All-map _ _
                (λ (e : ReadElement) k. record {
                  known = k;
                  dated = λ z. omega (arith, inv.core.table_ts e.key, inv.core.range e.key);
                })
                w.tx.read_set a.settled.known;
          room = a.settled.room;
          plain = a.settled.plain;
          below = subst (AreBelow ω (version w.tx.max_wset)) whole a.settled.below;
        })
    where
      whole : done ≡ w.tx.write_set
      whole = sym (append-nil done) ∙ a.settled.split

      same : (k : ℕ) → count k (write_keys done) ≡ count k (write_keys w.tx.write_set)
      same k = ap (λ (ws : List WriteElement). count k (write_keys ws)) whole

  pub epoch_step :
      (epoch : ℕ)
      → At inv i lt (fenced epoch)
      → Inv n first (
          advance s i (
            goes_to s.shared
              (record w { tx = record w.tx { local_epoch = epoch } })
              (validating [] w.tx.read_set)))
  epoch_step epoch a =
      still inv i lt
        (record w { tx = record w.tx { local_epoch = epoch }; phase = validating [] w.tx.read_set })
        s.shared.global_epoch (λ k. omega (arith, a.held_as k)) (λ k. refl)
        (λ k. omega (arith, a.pending_as k)) (omega (arith, a.bound))
        (λ k z. inv.core.claimed i k lt (omega (arith, z, a.claims_as k)))
        (record {
          split = refl;
          done = tt;
          dated = a.settled.dated;
          room = a.settled.room;
          plain = a.settled.plain;
          below = a.settled.below;
        })
