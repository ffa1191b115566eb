-- ===== src/Silo/Epochs.antt =====
-- The epochs of silo/: `GlobalEpoch`, the local epochs that the workers store, and the test of
-- `chkEpochLoaded` before `GlobalEpoch` is raised.
use ccbench.Common.{
  ℕ, zero, suc, subst, ◌≤◌, ◌<◌, ◌≡◌, refl, ◌==◌, ltb, Bool-cases, inl, inr, [], ◌∷◌, arith,
}
use ccbench.Common.Family.{at_each}
use ccbench.Serial.{Db}
use ccbench.Silo.Operations.{begin, abort, write_key}
use ccbench.Silo.Workers.{
  Phase, idle, leading, running, locking, fenced, Worker, Shared, Progress, proceed, start, goes_to,
  moves, leads_on,
}
use ccbench.Silo.System.{
  System, advance, Step, starts, leads, runs, Reach, here, next, init, local_epochs,
}

-- The local epoch that a worker is about to have.
abbrev coming : ℕ → Phase → ℕ
coming e (fenced epoch) = epoch
coming e _ = e

-- Of a leader: one more than the thread that it looks at next, and the epoch that it has loaded.
abbrev round : Phase → ℕ
round (leading thread nowepo) = suc thread
round _ = 0

abbrev wanted : Phase → ℕ
wanted (leading thread nowepo) = nowepo
wanted _ = 0

record IsTimely (global epoch : ℕ) (ph : Phase) : Type 0 where
  loaded : epoch ≤ coming epoch ph
  past : coming epoch ph ≤ global

record Inv (n : ℕ) (s : System) : Type 0 where
  timely : (i : ℕ) → IsTimely s.shared.global_epoch (local_epochs s i) (s.workers i).phase
  alone : (i : ℕ) → 1 ≤ i → round (s.workers i).phase ≡ 0
  same : 1 ≤ round (s.workers 0).phase → wanted (s.workers 0).phase ≡ s.shared.global_epoch
  asked :
      (j : ℕ)
      → 1 ≤ j
      → suc j < round (s.workers 0).phase
      → wanted (s.workers 0).phase ≤ local_epochs s j
  lag : (j : ℕ) → 1 ≤ j → j < n → s.shared.global_epoch ≤ suc (local_epochs s j)

module _ (n clock : ℕ) (epochs : ℕ → ℕ) (g : Shared) (w : Worker) where
  proceed-IsTimely :
      (ph : Phase)
      → IsTimely g.global_epoch w.tx.local_epoch ph
      → IsTimely
          (proceed n clock epochs ph g w).shared.global_epoch
          (proceed n clock epochs ph g w).worker.tx.local_epoch
          (proceed n clock epochs ph g w).worker.phase
        × (w.tx.local_epoch ≤ (proceed n clock epochs ph g w).worker.tx.local_epoch)
  unfolding proceed begin abort write_key
  proceed-IsTimely idle h = (ground (arith, h), ground arith)
  proceed-IsTimely (leading thread nowepo) h = (ground (arith, h), ground arith)
  proceed-IsTimely (running []) h = (ground (arith, h), ground arith)
  proceed-IsTimely (running (p ∷ todo)) h = (ground (arith, h), ground arith)
  proceed-IsTimely (locking done (e ∷ rest)) h = (ground (arith, h), ground arith)
  proceed-IsTimely (fenced e) h =
      (record { loaded = omega arith; past = omega (arith, h.past) }, h.loaded)
  proceed-IsTimely _ h = (ground (arith, h), ground arith)

  proceed-same :
      (ph : Phase)
      → round ph ≡ 0
      → ((proceed n clock epochs ph g w).shared.global_epoch ≡ g.global_epoch)
        × (round (proceed n clock epochs ph g w).worker.phase ≡ 0)
  unfolding proceed begin abort write_key
  proceed-same idle h = (refl, refl)
  proceed-same (leading thread nowepo) h = absurd (omega (arith, h))
  proceed-same (running (p ∷ todo)) h = (refl, ground arith)
  proceed-same _ h = (ground arith, ground arith)

module _ {n : ℕ} {s : System} (inv : Inv n s) (i : ℕ) where
  abbrev w : Worker
  w = s.workers i

  -- A step that leaves `GlobalEpoch` alone.
  calm :
      (p : Progress)
      → p.shared.global_epoch ≡ s.shared.global_epoch
      → IsTimely s.shared.global_epoch p.worker.tx.local_epoch p.worker.phase
      → w.tx.local_epoch ≤ p.worker.tx.local_epoch
      → (1 ≤ i → round p.worker.phase ≡ 0)
      → (1 ≤ round p.worker.phase → wanted p.worker.phase ≡ s.shared.global_epoch)
      → ((j : ℕ) → 1 ≤ j → suc j < round p.worker.phase → wanted p.worker.phase ≤ local_epochs s j)
      → Inv n (advance s i p)
  calm p keeps timely grows alone same asked = record {
    timely = λ j.
        at_each (λ (x : Worker). IsTimely p.shared.global_epoch x.tx.local_epoch x.phase) s.workers
          i p.worker j (rw keeps timely) (λ o. rw keeps (inv.timely j));
    alone = λ j one. ground (arith, alone, inv.alone j one);
    same = λ h. ground (arith, keeps, h, same, inv.same);
    asked = λ j one h. ground (arith, h, grows, asked j one, inv.asked j one);
    lag = λ j one lt. ground (arith, keeps, grows, inv.lag j one lt);
  }

-- Worker 0 in `chkEpochLoaded`, and `atomicAddGE` at its end.
leads_on-Inv :
    {n : ℕ} {s : System} (inv : Inv n s) (thread nowepo : ℕ)
    → (s.workers 0).phase ≡ leading thread nowepo
    → Inv n (advance s 0 (leads_on n (local_epochs s) thread nowepo s.shared (s.workers 0)))
leads_on-Inv {n} {s} inv thread nowepo at = elim (Bool-cases (ltb thread n)) [
  | inl more ↦ elim (Bool-cases (local_epochs s thread == nowepo)) [
    | inl agrees ↦
        rw (more, agrees)
          (calm inv 0 (goes_to s.shared (s.workers 0) (leading (suc thread) nowepo)) refl
            (ground (arith, at, inv.timely 0)) (omega arith) (λ o. absurd (omega arith))
            (λ h. ground (arith, at, inv.same))
            (λ j one h. ground (arith, at, agrees, inv.asked j one)))
    | inr differs ↦
        rw (more, differs)
          (calm inv 0 (goes_to s.shared (s.workers 0) idle) refl (ground (arith, at, inv.timely 0))
            (omega arith) (λ o. refl) (λ h. absurd (omega arith)) (λ j one h. absurd (omega arith)))
  ]
  | inr all ↦ rw all (record {
    timely = λ j. ground (arith, at, inv.timely 0, inv.timely j);
    alone = λ j one. ground (arith, inv.alone j one);
    same = λ h. absurd (omega arith);
    asked = λ j one h. absurd (omega arith);
    lag = λ j one lt. ground (arith, at, all, inv.same, inv.asked j one);
  })
]

quiet_step :
    {n : ℕ} {s : System} (inv : Inv n s) (i : ℕ) (ph : Phase)
    → (s.workers i).phase ≡ ph
    → round ph ≡ 0
    → Inv n (advance s i (proceed n s.clock (local_epochs s) ph s.shared (s.workers i)))
quiet_step {n} {s} inv i ph at quiet =
    let (keeps, after) = proceed-same n s.clock (local_epochs s) s.shared (s.workers i) ph quiet in
    let (timely, grows) =
      proceed-IsTimely n s.clock (local_epochs s) s.shared (s.workers i) ph
        (subst (IsTimely s.shared.global_epoch (local_epochs s i)) at (inv.timely i)) in
    calm inv i (proceed n s.clock (local_epochs s) ph s.shared (s.workers i)) keeps
      (record { loaded = timely.loaded; past = omega (arith, timely.past, keeps) }) grows
      (λ o. after) (λ h. absurd (omega (arith, h, after)))
      (λ j one h. absurd (omega (arith, h, after)))

runs-Inv :
    {n : ℕ} {s : System} (inv : Inv n s) (i : ℕ) (ph : Phase)
    → (s.workers i).phase ≡ ph
    → Inv n (advance s i (proceed n s.clock (local_epochs s) ph s.shared (s.workers i)))
unfolding proceed
runs-Inv {n} {s} inv zero (leading thread nowepo) at = leads_on-Inv inv thread nowepo at
runs-Inv {n} {s} inv (suc i) (leading thread nowepo) at =
    absurd (ground (arith, at, inv.alone (suc i)))
runs-Inv {n} {s} inv i ph at = quiet_step inv i ph at refl

Step-Inv : {n : ℕ} {s t : System} → Step n s t → Inv n s → Inv n t
unfolding start begin
Step-Inv {n} {s} (starts i todo lt e) inv =
    calm inv i (moves s.shared (start (s.workers i) todo)) refl (ground (arith, e, inv.timely i))
      (omega arith) (λ o. refl) (λ h. absurd (omega arith)) (λ j one h. absurd (omega arith))
Step-Inv {n} {s} (leads lt e) inv =
    calm inv 0 (goes_to s.shared (s.workers 0) (leading 1 s.shared.global_epoch)) refl
      (ground (arith, e, inv.timely 0)) (omega arith) (λ o. absurd (omega arith)) (λ h. refl)
      (λ j one h. absurd (omega arith))
Step-Inv (runs i lt) inv = runs-Inv inv i _ refl

Reach-Inv : {n : ℕ} {first vals : Db} {s : System} → Reach n first vals s → Inv n s
unfolding init
Reach-Inv here = record {
  timely = λ i. record { loaded = omega arith; past = omega arith };
  alone = λ i one. refl;
  same = λ h. absurd (omega arith);
  asked = λ j one h. absurd (omega arith);
  lag = λ j one lt. omega arith;
}
Reach-Inv (next r st) = Step-Inv st (Reach-Inv r)

-- Whatever `n` workers of silo/ do in whatever order, the local epoch of each is at most `GlobalEpoch`,
-- and that of each but worker 0, which leads, is at most one behind it.
pub epoch_lag :
    {n : ℕ} {first vals : Db} {s : System}
    → Reach n first vals s
    → ((i : ℕ) → local_epochs s i ≤ s.shared.global_epoch)
      × ((i : ℕ) → 1 ≤ i → i < n → s.shared.global_epoch ≤ suc (local_epochs s i))
epoch_lag r = (
  λ i. omega (arith, ((Reach-Inv r).timely i).loaded, ((Reach-Inv r).timely i).past),
  (Reach-Inv r).lag,
)
