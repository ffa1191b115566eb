-- ===== src/Silo/Steps.antt =====
-- Every step of the workers of silo/, phase by phase, keeps the invariant.
use ccbench.Common.{
  ℕ, suc, ◌≤◌, ◌<◌, ◌≡◌, refl, sym, ap, subst, ◌∙◌, true, ltb, if_both, [], ◌∷◌, All, arith, ◌==◌,
}
use ccbench.Common.Family.{sum_of-eq-zero}
use ccbench.Common.Sort.{All-sort}
use ccbench.Procedure.{Payload}
use ccbench.Serial.{Db}
use ccbench.Silo.Operations.{WriteElement, by_key, begin, abort}
use ccbench.Silo.Workers.{
  Phase, idle, leading, running, reading, copied, writing, locking, fenced, validating, unlocking,
  storing, releasing, Worker, Progress, proceed, start, moves, goes_to, leads_on,
}
use ccbench.Silo.System.{
  System, advance, Step, starts, leads, runs, Reach, here, next, init, local_epochs,
}
use ccbench.Silo.World.{AllKnown}
use ccbench.Silo.Holding.{held_on}
use ccbench.Silo.Invariant.{world, Inv, IsRoomy, still}
use ccbench.Silo.Reading.{
  is_early, IsEarly, early_step, starts_operation-IsEarly, turns-IsEarly, compares-IsEarly,
  writing-IsEarly,
}
use ccbench.Silo.Locking.{at, locking_step, unlocking_step}
use ccbench.Silo.Storing.{storing_step, releasing_step}
use ccbench.Silo.Fencing.{fence_step, epoch_step}
use ccbench.Silo.Checking.{check_step}
use ccbench.Silo.Deciding.{decision_step}

module _ {n : ℕ} {first : Db} {s : System} (inv : Inv n first s) (room : IsRoomy s) (i : ℕ)
    (lt : i < n) where
  abbrev w : Worker
  w = s.workers i

  abbrev Result : Progress → Type 0
  Result p = Inv n first (advance s i p)

  early :
      (ph : Phase)
      → w.phase ≡ ph
      → (w' : Worker) → is_early ph ≡ true
      → IsEarly (world n first s) (suc s.clock) w'
      → Result (moves s.shared w')
  early ph e w' h p = early_step inv i lt w' s.shared.global_epoch (ap is_early e ∙ h) p

  bound : w.ticket ≤ suc s.clock
  bound = omega (arith, inv.core.commit_ts i lt)

  leading_step :
      (epochs : ℕ → ℕ) (thread nowepo : ℕ)
      → w.phase ≡ leading thread nowepo
      → Result (leads_on n epochs thread nowepo s.shared w)
  leading_step epochs thread nowepo e =
      if_both Result (ltb thread n) _ _
        (if_both Result (epochs thread == nowepo) _ _
          (early _ e _ refl (record {
            early = refl;
            ticket = bound;
            settled = (at inv i lt (leading thread nowepo) e).settled;
          }))
          (early _ e _ refl done))
        (early_step inv i lt (record w { phase = idle }) (suc s.shared.global_epoch) (ap is_early e)
          done)
    where
      done : IsEarly (world n first s) (suc s.clock) (record w { phase = idle })
      done = record {
        early = refl;
        ticket = bound;
        settled = (at inv i lt (leading thread nowepo) e).settled;
      }

  -- The end of the read phase: no tuple is locked yet.
  sorting_step :
      w.phase ≡ running []
      → Result (
          goes_to s.shared
            (record w { tx = record w.tx { write_set = by_key w.tx.write_set } })
            (locking [] (by_key w.tx.write_set)))
  sorting_step e =
      let a = at inv i lt (running []) e in
      still inv i lt _ s.shared.global_epoch (λ k. omega (arith, a.held_as k)) (λ k. refl)
        (λ k. omega (arith, a.pending_as k)) bound (λ k z. absurd (omega (arith, z)))
        (record {
          split = refl;
          known = a.settled.known;
          room = a.settled.room;
          plain =
              All-sort (λ (x : WriteElement). x.key) (λ (x : WriteElement). x.val ≡ [])
                w.tx.write_set a.settled.plain;
          below = tt;
        })

  proceed-Inv :
      (ph : Phase) → w.phase ≡ ph → Result (proceed n s.clock (local_epochs s) ph s.shared w)
  unfolding proceed abort
  proceed-Inv idle e =
      early idle e _ refl
        (record { early = refl; ticket = bound; settled = (at inv i lt idle e).settled })
  proceed-Inv (leading thread nowepo) e = leading_step (local_epochs s) thread nowepo e
  proceed-Inv (running []) e = sorting_step e
  proceed-Inv (running (p ∷ todo)) e =
      early _ e _ refl
        (starts_operation-IsEarly inv w p todo bound (at inv i lt (running (p ∷ todo)) e).settled)
  proceed-Inv (reading key b todo v) e =
      early _ e _ refl
        (turns-IsEarly inv w key b todo v bound (at inv i lt (reading key b todo v) e).settled)
  proceed-Inv (copied key b todo v val) e = early _ e _ refl (
      compares-IsEarly inv w key b todo v val bound
        (at inv i lt (copied key b todo v val) e).settled)
  proceed-Inv (writing key todo) e =
      early _ e _ refl
        (writing-IsEarly inv w key todo bound (at inv i lt (writing key todo) e).settled)
  proceed-Inv (locking done (x ∷ rest)) e = locking_step inv i lt room done rest x (at inv i lt _ e)
  proceed-Inv (locking done []) e = fence_step inv i lt done (at inv i lt _ e)
  proceed-Inv (fenced epoch) e = epoch_step inv i lt epoch (at inv i lt _ e)
  proceed-Inv (validating checked (x ∷ rest)) e =
      check_step inv i lt room checked rest x (at inv i lt _ e)
  proceed-Inv (validating checked []) e = decision_step inv i lt room checked (at inv i lt _ e)
  proceed-Inv (unlocking (x ∷ rest)) e = unlocking_step inv i lt rest x (at inv i lt _ e)
  proceed-Inv (unlocking []) e =
      let a = at inv i lt (unlocking []) e in
      still inv i lt _ s.shared.global_epoch (λ k. omega (arith, a.held_as k)) (λ k. refl)
        (λ k. omega (arith, a.pending_as k)) bound (λ k z. absurd (omega (arith, z))) (refl, refl)
  proceed-Inv (storing (x ∷ rest)) e = storing_step inv i lt rest x (at inv i lt _ e)
  proceed-Inv (storing []) e =
      let a = at inv i lt (storing []) e in
      still inv i lt _ s.shared.global_epoch (λ k. omega (arith, a.held_as k)) (λ k. refl)
        (λ k. omega (arith, a.pending_as k)) bound (λ k z. absurd (omega (arith, z))) (refl, refl)
  proceed-Inv (releasing (x ∷ rest)) e = releasing_step inv i lt rest x (at inv i lt _ e)
  proceed-Inv (releasing []) e =
      let a = at inv i lt (releasing []) e in
      still inv i lt _ s.shared.global_epoch (λ k. omega (arith, a.held_as k)) (λ k. refl)
        (λ k. omega (arith, a.pending_as k)) bound (λ k z. absurd (omega (arith, z))) a.settled.0

Step-Inv :
    {n : ℕ} {first : Db} {s t : System} → Step n s t → IsRoomy s → Inv n first s → Inv n first t
unfolding start begin
Step-Inv {n} {first} {s} (starts i todo lt e) room inv = early inv room i lt idle e _ refl (record {
  early = refl;
  ticket = bound inv room i lt;
  settled = record {
    known = subst (AllKnown (world n first s)) (sym (at inv i lt idle e).settled.0) tt;
    room = (omega arith, omega arith);
    plain = subst (All (λ (x : WriteElement). x.val ≡ [])) (sym (at inv i lt idle e).settled.1) tt;
  };
})
Step-Inv (leads lt e) room inv =
    early inv room 0 lt idle e _ refl (record {
      early = refl;
      ticket = bound inv room 0 lt;
      settled = (at inv 0 lt idle e).settled;
    })
Step-Inv (runs i lt) room inv = proceed-Inv inv room i lt _ refl

init-Inv : (n : ℕ) (first vals : ℕ → Payload) → Inv n first (init first vals)
unfolding init
init-Inv n first vals = record {
  core = record {
    locks = λ k. sum_of-eq-zero (held_on k) n _ (λ i lt. refl);
    range = λ k. omega arith;
    table_ts = λ k. omega arith;
    commit_ts = λ i lt. omega arith;
    history_ts = tt;
    sorted = tt;
    serial = tt;
    readers = tt;
    writers = tt;
    claimed = λ i k lt h. absurd (omega arith);
    current = λ k ts q le. refl;
    fresh = λ i k ts lt h. absurd (omega arith);
  };
  settled = λ i lt. (refl, refl);
}

-- Every state before the last had room for a later TID.
unfoldable pub HadRoom : {n : ℕ} {first vals : Db} {s : System} → Reach n first vals s → Type 0
HadRoom here = Unit
HadRoom (next {s = s} r st) = HadRoom r × IsRoomy s

pub Reach-Inv :
    {n : ℕ} {first vals : Db} {s : System} (r : Reach n first vals s) → HadRoom r → Inv n first s
unfolding HadRoom
Reach-Inv {n} {first} {vals} here h = init-Inv n first vals
Reach-Inv (next r st) h = Step-Inv st h.1 (Reach-Inv r h.0)
