-- ===== src/Si/Steps.antt =====
-- Every step of the workers of si/ keeps the invariant.
use ccbench.Common.{
  ℕ, suc, ◌+◌, ◌^◌, ◌<◌, ◌≡◌, inl, refl, subst, Bool, true, false, ltb, if_cases, if_both, leb,
  List, [], ◌∷◌, arith,
}
use ccbench.Procedure.{Payload, Procedure}
use ccbench.Si.Types.{Shared, version}
use ccbench.Si.Workers.{
  Phase, idle, beginning, running, loaded, searching, copying, writing, examining, conflicting,
  climbing, testing, linking, stamping, paying, releasing, ending, aborting, faulted, Worker,
  Progress, is_committed, is_in_flight, begins, conflicts, tests, proceed, start,
}
use ccbench.Si.System.{System, Step, starts, runs, init, Reach, here, next}
use ccbench.Si.Invariant.{IsIdle, IsSettled, Inv}
use ccbench.Si.Reading.{
  begins-Settles, starts_operation-Settled, loaded-Settled, views-Settled, copies-Settled,
  twrite-Settled, conflicts-Settles, climbs-Settled, tests-Settles,
}
use ccbench.Si.Keeping.{IsKept, kept-Inv, quiet, quietly, counted}
use ccbench.Si.Committing.{
  small, links-IsKept, commits-IsKept, stamps-IsKept, pays-IsKept, releases-IsKept,
  withdraws-IsKept, ends-IsKept,
}

module _ {s : System} (inv : Inv s) (i : ℕ) where
  abbrev g : Shared
  g = s.shared

  abbrev w : Worker
  w = s.workers i

  module _ (room : s.clock + 1 < 2 ^ 32) where
    proceed-IsKept : (n : ℕ) (ph : Phase) → IsSettled g i ph w.tx → IsKept s i (proceed n i ph g w)
    unfolding proceed
    proceed-IsKept n idle h = quiet inv i (record w { phase = idle }) h
    proceed-IsKept n (beginning j todo) h =
        quietly inv i (begins n j todo g w)
          (if_both (λ (p : Progress). p.shared ≡ g) (ltb j n) _ _ refl refl)
          (begins-Settles g i w inv.tuples n j todo (inv.last j) (omega (arith, inv.cctr, room)) h)
    proceed-IsKept n (running []) h = commits-IsKept inv i room h
    proceed-IsKept n (running (p ∷ todo)) h =
        quiet inv i _ (starts_operation-Settled g i w inv.tuples p todo h)
    proceed-IsKept n (loaded key b todo v) h =
        if_cases (IsKept s i) (is_committed (version g key v).status) _ _
          (λ done. quiet inv i (record w { phase = searching key b todo v }) (h.0, done))
          (λ undecided. quiet inv i _ (loaded-Settled g i w inv.tuples key b todo v h.0 undecided))
    proceed-IsKept n (searching key b todo v) h =
        quiet inv i _ (views-Settled g i w inv.tuples key b todo v h.0 h.1)
    proceed-IsKept n (copying key b todo v) h =
        quiet inv i _ (copies-Settled g i w inv.tuples key b todo v h)
    proceed-IsKept n (writing key todo) h =
        quiet inv i _ (twrite-Settled g i w inv.tuples key todo h)
    proceed-IsKept n (examining key todo e) h =
        if_cases (IsKept s i) (is_in_flight (version g key e).status) _ _
          (λ flies. quiet inv i (record w { phase = conflicting key todo e }) h)
          (λ settled.
            quiet inv i (record w { phase = climbing key todo e e })
              (h.0, h.1, h.2, settled, inl refl))
    proceed-IsKept n (conflicting key todo e) h =
        quietly inv i (conflicts g w key todo e)
          (if_both (λ (p : Progress). p.shared ≡ g) (leb w.tx.txid (version g key e).cstamp) _ _
            refl refl)
          (conflicts-Settles g i w inv.tuples key todo e h.0 h.1)
    proceed-IsKept n (climbing key todo e v) h =
        quiet inv i _ (climbs-Settled g i w inv.tuples key todo e v h)
    proceed-IsKept n (testing key todo e v) h =
        quietly inv i (tests g w key todo e v)
          (if_both (λ (p : Progress). p.shared ≡ g) (ltb w.tx.txid (version g key v).cstamp) _ _
            refl refl)
          (tests-Settles g i w inv.tuples key todo e v h)
    proceed-IsKept n (linking key todo e v) h = links-IsKept inv i room key todo e v h
    proceed-IsKept n (stamping (e ∷ rest)) h = stamps-IsKept inv i room e rest h
    proceed-IsKept n (stamping []) h = quiet inv i _ (refl, refl, h.cstamp.1)
    proceed-IsKept n (paying (e ∷ rest)) h = pays-IsKept inv i room e rest h.0 h.1
    proceed-IsKept n (paying []) h = quiet inv i (record w { phase = stamping [] }) h.0
    proceed-IsKept n (releasing (e ∷ rest)) h = releases-IsKept inv i room e rest h.0 h.1
    proceed-IsKept n (releasing []) h = quiet inv i (record w { phase = stamping [] }) h.0
    proceed-IsKept n ending h = ends-IsKept inv i room h
    proceed-IsKept n (aborting (e ∷ rest)) h = withdraws-IsKept inv i room e rest h
    proceed-IsKept n (aborting []) h = quiet inv i _ (refl, refl, h.1)
    proceed-IsKept n faulted h = elim h [ ]

  start-IsKept :
      (cctr_on : Bool) (todo : List Procedure)
      → s.clock + 1 < 2 ^ 32
      → IsIdle g w.tx
      → IsKept s i (start cctr_on todo g w)
  unfolding start
  start-IsKept true todo room h = quiet inv i _ (h, h.2)
  start-IsKept false todo room h = counted inv i _ (record {
    written = record { owned = rw h.1 tt; once = λ k. rw h.1 (omega arith) };
    seen = rw h.0 tt;
    txid = omega (arith, small inv i room);
    cstamp = omega (arith, h.2);
  })

  idle-IsIdle : w.phase ≡ idle → IsIdle g w.tx
  idle-IsIdle e = subst (λ (ph : Phase). IsSettled g i ph w.tx) e (inv.settled i)

Step-Inv : {b : Bool} {n : ℕ} {s t : System} → Step b n s t → s.clock + 1 < 2 ^ 32 → Inv s → Inv t
Step-Inv (starts i todo lt e) room inv =
    kept-Inv inv i _ (start-IsKept inv i _ todo room (idle-IsIdle inv i e))
Step-Inv {n = n} {s} (runs i lt) room inv =
    kept-Inv inv i _ (proceed-IsKept inv i room n (s.workers i).phase (inv.settled i))

clock_grows : {b : Bool} {n : ℕ} {s t : System} → Step b n s t → t.clock ≡ suc s.clock
clock_grows (starts i todo lt e) = refl
clock_grows (runs i lt) = refl

pub Reach-Inv :
    {b : Bool} {n : ℕ} {db vals : ℕ → Payload} {s : System}
    → Reach b n db vals s
    → s.clock < 2 ^ 32
    → Inv s
unfolding init
Reach-Inv here small = record {
  tuples = λ k. record {
    fresh = λ v le. ground (arith, le);
    latest = omega arith;
    first = λ v e. ground (arith, e);
    linked = λ v p e. ground (arith, e);
    stamped = λ v h. ground (arith, h);
    flying = λ v h. ground (arith, h);
    newest = λ p u top h. ground (arith, top, h);
    apart = λ u v hu hv ne. ground (arith, hu, hv, ne);
  };
  allocated = omega arith;
  cctr = omega arith;
  last = λ i. omega arith;
  settled = λ i. (refl, refl, omega arith);
}
Reach-Inv (next r st) small =
    let room = clock_grows st in
    Step-Inv st (omega (arith, small, room)) (Reach-Inv r (omega (arith, small, room)))
