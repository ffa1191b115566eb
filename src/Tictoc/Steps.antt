-- ===== src/Tictoc/Steps.antt =====
-- Every step of the workers of tictoc/, phase by phase, keeps the invariant, in the build without
-- `TIMESTAMP_HISTORY`.
use ccbench.Common.{ℕ, suc, ◌^◌, ◌<◌, ◌≡◌, refl, sym, ap, subst, ◌∙◌, true, false, [], ◌∷◌, arith}
use ccbench.Common.Family.{sum_of-eq-zero}
use ccbench.Procedure.{Payload}
use ccbench.Serial.{Db}
use ccbench.Tictoc.Operations.{begin, check_read, sort_write_set, clear_sets}
use ccbench.Tictoc.Workers.{
  Phase, idle, running, reading, copied, writing, locking, validating, unlocking, storing, stored,
  Worker, System, proceed, start, Step, starts, runs, Reach, here, next, init,
}
use ccbench.Tictoc.World.{AllKnown, held_on}
use ccbench.Tictoc.Invariant.{world, Inv, moved}
use ccbench.Tictoc.Reading.{
  is_early, IsEarly, early_step, starts_operation-IsEarly, turns-IsEarly, compares-IsEarly,
  writing-IsEarly,
}
use ccbench.Tictoc.Commits.{decide_step, store_step}
use ccbench.Tictoc.Standing.{at, still, Result}
use ccbench.Tictoc.Locking.{locking_step, unlocking_step, storing_step}
use ccbench.Tictoc.Validation.{raising_step, validation}

module _ {n : ℕ} {first : Db} {m : ℕ} {s : System} (inv : Inv n first m s) (i : ℕ)
    (lt : i < n) where
  abbrev w : Worker
  w = s.workers i

  early :
      (ph : Phase)
      → w.phase ≡ ph
      → (w' : Worker) → is_early ph ≡ true
      → IsEarly (world n first s) m w'
      → Inv n first (suc m) (moved s i w' s.table s.history)
  early ph e w' h p = early_step inv i lt w' (ap is_early e ∙ h) p

  module _ (small : m < 2 ^ 48) where
    proceed-Inv : (ph : Phase) → w.phase ≡ ph → Result inv i lt (proceed false ph s.table w)
    unfolding proceed sort_write_set clear_sets
    proceed-Inv idle e = early idle e _ refl (record {
      early = refl;
      commit_ts = (at inv i lt idle e).bound;
      settled = (at inv i lt idle e).settled;
    })
    proceed-Inv (running []) e =
        still inv i lt _ (at inv i lt (running []) e) (λ k. refl) (λ k. refl) (λ k. refl)
          (at inv i lt (running []) e).bound (λ k z. absurd (omega (arith, z)))
          ((at inv i lt (running []) e).settled, refl)
    proceed-Inv (running (p ∷ todo)) e =
        let a = at inv i lt (running (p ∷ todo)) e in
        early _ e _ refl (starts_operation-IsEarly inv i lt a.bound w p todo a.bound a.settled)
    proceed-Inv (reading key b todo v1) e =
        let a = at inv i lt (reading key b todo v1) e in
        early _ e _ refl (turns-IsEarly inv i lt a.bound w key b todo v1 a.bound a.settled)
    proceed-Inv (copied key b todo v1) e =
        let a = at inv i lt (copied key b todo v1) e in
        early _ e _ refl (compares-IsEarly inv i lt a.bound w key b todo v1 a.bound a.settled)
    proceed-Inv (writing key todo) e =
        let a = at inv i lt (writing key todo) e in
        early _ e _ refl (writing-IsEarly inv i lt a.bound w key todo a.bound a.settled)
    proceed-Inv (locking done (x ∷ rest)) e = locking_step inv i lt done rest x (at inv i lt _ e)
    proceed-Inv (locking done []) e = raising_step inv i lt done (at inv i lt _ e)
    proceed-Inv (validating checked (x ∷ rest)) e =
        validation inv i lt small checked rest x (check_read false s.table w.tx x) refl
          (at inv i lt _ e)
    proceed-Inv (validating checked []) e = decide_step inv i lt checked e
    proceed-Inv (unlocking (x ∷ rest)) e = unlocking_step inv i lt rest x (at inv i lt _ e)
    proceed-Inv (unlocking []) e =
        still inv i lt _ (at inv i lt (unlocking []) e) (λ k. refl) (λ k. refl) (λ k. refl)
          (at inv i lt (unlocking []) e).bound (λ k z. absurd (omega (arith, z))) (refl, refl)
    proceed-Inv (storing (x ∷ rest)) e = storing_step inv i lt rest x (at inv i lt _ e)
    proceed-Inv (storing []) e =
        still inv i lt _ (at inv i lt (storing []) e) (λ k. refl) (λ k. refl) (λ k. refl)
          (at inv i lt (storing []) e).bound (λ k z. absurd (omega (arith, z))) (refl, refl)
    proceed-Inv (stored (x ∷ rest)) e = store_step inv i lt small false x rest e
    proceed-Inv (stored []) e =
        still inv i lt _ (at inv i lt (stored []) e) (λ k. refl) (λ k. refl) (λ k. refl)
          (at inv i lt (stored []) e).bound (λ k z. absurd (omega (arith, z))) tt

Step-Inv :
    {n : ℕ} {first : Db} {m : ℕ} {s t : System}
    → Step false n s t
    → m < 2 ^ 48
    → Inv n first m s
    → Inv n first (suc m) t
unfolding start begin
Step-Inv {n} {first} {m} {s} (starts i todo lt e) small inv = early inv i lt idle e _ refl (record {
  early = refl;
  commit_ts = omega arith;
  settled = subst (AllKnown (world n first s)) (sym (at inv i lt idle e).settled.0) tt;
})
Step-Inv (runs i lt) small inv = proceed-Inv inv i lt small _ refl

init-Inv : (n : ℕ) (first vals : ℕ → Payload) → Inv n first 0 (init first vals)
unfolding init
init-Inv n first vals = record {
  core = record {
    locks = λ k. sum_of-eq-zero (held_on k) n _ (λ i lt. refl);
    range = λ k. omega arith;
    table_ts = λ k. omega arith;
    commit_ts = λ i lt. omega arith;
    history_ts = tt;
    sorted = tt;
    serial = tt;
    readers = tt;
    writers = tt;
    claimed = λ i k lt h. absurd (omega arith);
    current = λ k ts q le. refl;
    fresh = λ i k ts lt h. absurd (omega arith);
  };
  words = λ k. omega arith;
  level = λ k ts lo hi. refl;
  settled = λ i lt. (refl, refl);
}

pub Reach-Inv :
    {n : ℕ} {first vals : ℕ → Payload} {m : ℕ} {s : System}
    → Reach false n first vals m s
    → m < 2 ^ 48
    → Inv n first m s
Reach-Inv {n} {first} {vals} here small = init-Inv n first vals
Reach-Inv (next r st) small = Step-Inv st (omega arith) (Reach-Inv r (omega arith))
