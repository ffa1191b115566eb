-- ===== src/Silo/Deciding.antt =====
-- The end of the validation of silo/, which decides the transaction.
use ccbench.Common.{
  ℕ, ◌*◌, ◌^◌, ◌≤◌, ◌<◌, ◌≡◌, refl, sym, subst, ◌∙◌, true, false, List, [], All, All-map,
  All-of_map, arith,
}
use mathlib.Core.List.{append-nil}
use ccbench.Common.Family.{sum_of-assign}
use ccbench.Serial.{Db}
use ccbench.Timestamps.Commits.{IsDecision, log_step, state_before, state_other}
use ccbench.Silo.Tidword.{version, choose_tid-version}
use ccbench.Silo.Operations.{ReadElement, WriteElement, write_keys}
use ccbench.Silo.Workers.{Worker, validating, decides, decision, commit_of, found}
use ccbench.Silo.System.{System, advance}
use ccbench.Silo.World.{World, Grows, IsChecked}
use ccbench.Silo.Holding.{pending_on, claims-le-held_on}
use ccbench.Silo.Invariant.{world, Inv, IsRoomy, go}
use ccbench.Silo.Locking.{At}

module _ {n : ℕ} {first : Db} {s : System} (inv : Inv n first s) (i : ℕ) (lt : i < n) where
  abbrev w : Worker
  w = s.workers i

  abbrev ω : World
  ω = world n first s

  pub decision_step :
      IsRoomy s
      → (checked : List ReadElement) → At inv i lt (validating checked [])
      → Inv n first (advance s i (decision s.shared w))
  decision_step room checked a =
      go inv i lt (decision s.shared w) (log_step inv.core i lt (decides w) (commit_of w.tx) d)
        grows
        (λ k z l. record {
          ver = refl;
          val = refl;
          at = λ ts.
              state_other inv.core i lt (decides w) (commit_of w.tx) d ts k
                (omega (arith, z, claims-le-held_on k w));
        })
        (record {
          plain = a.settled.plain;
          later =
              All-map _ _ (λ (x : WriteElement) le. omega (arith, le, tid)) w.tx.write_set
                a.settled.below;
          unlocks = tid.4;
        })
    where
      tid :
          (version w.tx.max_wset < version (decides w).tx.mrctid)
          × (version w.tx.max_rset < version (decides w).tx.mrctid)
          × (version w.tx.mrctid < version (decides w).tx.mrctid)
          × (2 ^ 29 * w.tx.local_epoch ≤ version (decides w).tx.mrctid)
          × ((decides w).tx.mrctid.lock ≡ false)
          × ((decides w).tx.mrctid.latest ≡ true)
      tid =
          choose_tid-version w.tx.max_wset w.tx.max_rset w.tx.mrctid w.tx.local_epoch
            a.settled.room.0 a.settled.room.1 (room.last i) (room.epochs i)

      all_checked : All (IsChecked ω w.ticket (write_keys w.tx.write_set)) w.tx.read_set
      all_checked =
          subst (All (IsChecked ω w.ticket (write_keys w.tx.write_set)))
            (sym (append-nil checked) ∙ a.settled.split) a.settled.done

      d : IsDecision inv.core i lt (decides w) (commit_of w.tx)
      d = record {
        same_held = λ k. omega (arith, a.held_as k);
        same_claims = λ k. omega (arith, a.claims_as k);
        was_none = λ k. omega (arith, a.pending_as k);
        now_pending = λ k. refl;
        same_ts = refl;
        payload = refl;
        reads =
            All-of_map _ found w.tx.read_set
              (All-map _ _ (λ e c. c.value) w.tx.read_set all_checked);
        lasting =
            All-of_map _ found w.tx.read_set
              (All-map _ _ (λ e c. c.lasting) w.tx.read_set all_checked);
      }

      grows :
          (k : ℕ) → Grows (world n first s) (world n first (advance s i (decision s.shared w))) k
      grows k = record {
        ver = omega arith;
        rts = omega arith;
        same_wts = λ z. omega arith;
        past = λ ts le. state_before inv.core i lt (decides w) (commit_of w.tx) d ts k le;
        payload = λ v quiet. (
          omega (
            arith,
            quiet,
            a.pending_as k,
            sum_of-assign (pending_on k) n s.workers i (decides w) lt,
          ),
          refl,
        );
      }
