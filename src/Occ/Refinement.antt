-- ===== src/Occ/Refinement.antt =====
-- The steps of occ/ that write no tuple, and the one that decides, keep the invariant.
use ccbench.Common.{
  ℕ, ◌+◌, ◌-◌, ◌≤◌, ◌<◌, ◌≡◌, sym, ap, subst, ◌∙◌, inl, inr, true, ◌==◌, ◌∷◌, none, some, count,
  length, All, arith, Bool-cases, ==_iff,
}
use ccbench.Common.Family.{assign, at_each, sum_of, sum_of-assign, le-sum_of, sum_of-eq-zero}
use ccbench.Rwlock.{RwLock}
use ccbench.Rwlock.Agreement.{Agrees}
use ccbench.Serial.{SetElement, Commit, Db, apply, apply-written, apply-kept, then_commit}
use ccbench.Occ.Operations.{TxnExecutor, validation_phase}
use ccbench.Occ.Workers.{Phase, validating, storing, Worker, System, advance}
use ccbench.Occ.Validation.{validated_current}
use ccbench.Occ.Invariant.{
  owns, is_storing, pending, pending_on, IsReading, IsSettled, Inv, storing_owner,
  pending-le-is_storing, IsSettled-commit,
}

abbrev pub commit_of : TxnExecutor → Commit
commit_of x = record { reads = x.read_set; writes = x.write_set; val = x.write_val }

module _ {n : ℕ} {first : Db} {s : System} {db : Db} (inv : Inv n first s db) where
  module _ (i : ℕ) (lt : i < n) where
    abbrev w : Worker
    w = s.workers i

    abbrev changed : Worker → ℕ → Worker
    changed w' = assign s.workers i w'

    pub next_lock :
        (l : RwLock) (w' : Worker)
        → ((v : ℕ) → Agrees s.shared.global_lock 0 (owns w + v) → Agrees l 0 (owns w' + v))
        → Agrees l 0 (sum_of owns n (changed w'))
    next_lock l w' f =
        subst (Agrees l 0)
          (omega (arith, sum_of-assign owns n s.workers i w', le-sum_of owns n s.workers i))
          (f (sum_of owns n s.workers - owns w) (
            subst (Agrees s.shared.global_lock 0) (omega (arith, le-sum_of owns n s.workers i))
              inv.lock))

    pub own_quiet :
        (k : ℕ) (w' : Worker)
        → ((j : ℕ) → j < n → pending_on k (changed w' j) ≡ 0)
        → pending_on k w' ≡ 0
    own_quiet k w' quiet = ground (arith, quiet i lt)

    pub was_quiet :
        (k : ℕ) (w' : Worker)
        → ((j : ℕ) → j < n → pending_on k (changed w' j) ≡ 0)
        → pending_on k w ≡ 0
        → (j : ℕ) → j < n
        → pending_on k (s.workers j) ≡ 0
    was_quiet k w' quiet own j hj = elim (Bool-cases (i == j)) [
      | inl here ↦ subst (λ (x : ℕ). pending_on k (s.workers x) ≡ 0) ((==_iff i j).0 here) own
      | inr other ↦ rw other at (quiet j hj)
    ]

    -- A step that writes no tuple and publishes nothing.
    pub quiet_step :
        (l : RwLock) (w' : Worker)
        → ((v : ℕ) → Agrees s.shared.global_lock 0 (owns w + v) → Agrees l 0 (owns w' + v))
        → is_storing w' ≡ is_storing w
        → pending w'.phase ≡ pending w.phase
        → w'.tx.write_val ≡ w.tx.write_val
        → IsSettled w'.phase db s.log s.shared.tx_id w'.tx
        → Inv n first
            (advance s i
              (record { shared = record s.shared { global_lock = l }; worker = w'; logged = none }))
            db
    quiet_step l w' locks same pend val own = record {
      serial = inv.serial;
      lock = next_lock l w' locks;
      ids = omega (arith, inv.ids, sum_of-assign is_storing n s.workers i w', same);
      window = record {
        size = inv.window.size;
        small = inv.window.small;
        word = inv.window.word;
        holds = inv.window.holds;
      };
      settled = λ j hj.
          at_each (λ v. IsSettled v.phase db s.log s.shared.tx_id v.tx) s.workers i w' j own
            (λ other. inv.settled j hj);
      clean = λ k quiet.
          inv.clean k (was_quiet k w' quiet (ap (count k) (sym pend) ∙ own_quiet k w' quiet));
      dirty = λ j k hj.
          at_each (λ v. 1 ≤ pending_on k v → db k ≡ v.tx.write_val) s.workers i w' j
            (λ h. inv.dirty i k lt (omega (arith, h, ap (count k) pend)) ∙ sym val)
            (λ other. inv.dirty j k hj);
    }

    -- While this worker owns the lock and does not store, no worker stores.
    none_storing : owns w ≡ 1 → is_storing w ≡ 0 → (j : ℕ) → j < n → is_storing (s.workers j) ≡ 0
    none_storing own calm j hj = elim (Bool-cases (i == j)) [
      | inl here ↦ subst (λ (x : ℕ). is_storing (s.workers x) ≡ 0) ((==_iff i j).0 here) calm
      | inr other ↦ storing_owner inv i j lt hj other own
    ]

    none_pending : (j k : ℕ) → is_storing (s.workers j) ≡ 0 → pending_on k (s.workers j) ≡ 0
    none_pending j k h = ground (arith, pending-le-is_storing k (s.workers j))

    module _ (e : w.phase ≡ validating) where
      own_idle : (owns w ≡ 1) × (is_storing w ≡ 0)
      own_idle = ground arith

      pub all_published : s.shared.tx_id ≡ length s.log
      all_published = omega (
        arith,
        inv.ids,
        sum_of-eq-zero is_storing n s.workers (none_storing own_idle.0 own_idle.1),
      )

      pub all_quiet : (k j : ℕ) → j < n → pending_on k (s.workers j) ≡ 0
      all_quiet k j hj = none_pending j k (none_storing own_idle.0 own_idle.1 j hj)

      abbrev storer : Worker
      storer = record w { phase = storing w.tx.write_set }

      -- A validation that succeeds takes the specification one transaction on.
      pub commit_step :
          (c : Commit)
          → c ≡ commit_of w.tx
          → validation_phase s.shared w.tx ≡ some true
          → Inv n first
              (advance s i (record { shared = s.shared; worker = storer; logged = some c }))
              (apply c db)
      commit_step c same v = record {
        serial = then_commit c inv.serial (rw same current);
        lock = next_lock s.shared.global_lock storer (λ x a. ground arith);
        ids = omega (arith, inv.ids, sum_of-assign is_storing n s.workers i storer, own_idle.1);
        window = record {
          size = inv.window.size;
          small = inv.window.small;
          word = inv.window.word;
          holds = λ id d lo hi f. inv.window.holds id d lo hi (ground (arith, all_published));
        };
        settled = λ j hj.
            at_each (λ x. IsSettled x.phase (apply c db) (c ∷ s.log) s.shared.tx_id x.tx) s.workers
              i storer j
              (record {
                own = c;
                found = ground (arith, all_published);
                writes = ap (λ (d : Commit). d.writes) same;
                within = λ k. omega (arith, ap (λ (d : Commit). count k d.writes) same);
              })
              (λ other.
                IsSettled-commit (s.workers j).phase db s.log c s.shared.tx_id (s.workers j).tx
                  (none_storing own_idle.0 own_idle.1 j hj) (omega (arith, all_published))
                  (inv.settled j hj));
        clean = λ k quiet.
            apply-kept c db k
              (ap (λ (d : Commit). count k d.writes) same ∙ own_quiet k storer quiet)
            ∙ inv.clean k (all_quiet k);
        dirty = λ j k hj.
            at_each (λ x. 1 ≤ pending_on k x → apply c db k ≡ x.tx.write_val) s.workers i storer j
              (λ h.
                apply-written c db k (omega (arith, h, ap (λ (d : Commit). count k d.writes) same))
                ∙ ap (λ (d : Commit). d.val) same)
              (λ other h. absurd (omega (arith, h, all_quiet k j hj)));
      }
        where
          reading : IsReading db s.log s.shared.tx_id w.tx
          reading =
              subst (λ (ph : Phase). IsSettled ph db s.log s.shared.tx_id w.tx) e (inv.settled i lt)

          current : All (λ (x : SetElement). db x.key ≡ x.val) w.tx.read_set
          current =
              validated_current s.shared s.log w.tx db inv.window reading.1 all_published v
                reading.0
