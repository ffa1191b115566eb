-- ===== src/Occ/Publishing.antt =====
-- The steps of `writePhase` of occ/ keep the invariant.
use ccbench.Common.{
  ℕ, ◌^◌, ◌≤◌, ◌<◌, ◌≡◌, refl, sym, ap, subst, ◌∙◌, inl, inr, true, ◌==◌, List, [], ◌∷◌, none,
  count, length, arith, Bool-cases,
}
use ccbench.Common.Family.{assign, at_each, sum_of-assign, le-sum_of}
use ccbench.Procedure.{Payload}
use ccbench.Serial.{Db}
use ccbench.Occ.Operations.{Shared, publish, clear_sets}
use ccbench.Occ.Workers.{Phase, storing, leaving, Worker, System, advance}
use ccbench.Occ.Window.{IsPublished, publish-IsPublished}
use ccbench.Occ.Invariant.{
  owns, is_storing, pending, pending_on, IsWriting, IsSettled, Inv, storing_owner, IsSettled-later,
}
use ccbench.Occ.Refinement.{next_lock, own_quiet, was_quiet}

module _ {n : ℕ} {first : Db} {s : System} {db : Db} (inv : Inv n first s db) where
  module _ (i : ℕ) (lt : i < n) where
    abbrev w : Worker
    w = s.workers i

    module _ (rest : List ℕ) (e : w.phase ≡ storing rest) where
      writing : IsWriting s.log s.shared.tx_id w.tx rest
      writing =
          subst (λ (ph : Phase). IsSettled ph db s.log s.shared.tx_id w.tx) e (inv.settled i lt)

      own_storing : (owns w ≡ 1) × (is_storing w ≡ 1)
      own_storing = ground arith

      own_pending : (k : ℕ) → pending_on k w ≡ count k rest
      own_pending k = ap (λ (ph : Phase). count k (pending ph)) e

      -- The rest of `writePhase`.
      pub publish_step :
          (threshold : ℕ)
          → rest ≡ []
          → length s.log < 2 ^ 31
          → Inv n first
              (advance s i (record {
                shared = publish threshold n i s.shared w.tx;
                worker = record w { tx = clear_sets w.tx; phase = leaving true };
                logged = none;
              }))
              db
      unfolding clear_sets
      publish_step threshold empty small = record {
        serial = inv.serial;
        lock = rw p.same_lock (next_lock inv i lt s.shared.global_lock w' (λ x a. ground arith));
        ids =
            omega
              (arith, inv.ids, p.next_id, sum_of-assign is_storing n s.workers i w', own_storing.1);
        window = p.window;
        settled = λ j hj.
            at_each (λ x. IsSettled x.phase db s.log s'.tx_id x.tx) s.workers i w' j (refl, refl)
              (λ other.
                IsSettled-later (s.workers j).phase db s.log s.shared.tx_id s'.tx_id
                  (s.workers j).tx (storing_owner inv i j lt hj other own_storing.0)
                  (omega (arith, p.next_id)) (inv.settled j hj));
        clean = λ k quiet.
            inv.clean k (was_quiet inv i lt k w' quiet (own_pending k ∙ ap (count k) empty))
            ∙ ap (λ (t : ℕ → Payload). t k) (sym p.same_table);
        dirty = λ j k hj.
            at_each (λ x. 1 ≤ pending_on k x → db k ≡ x.tx.write_val) s.workers i w' j
              (λ h. absurd (omega arith)) (λ other. inv.dirty j k hj);
      }
        where
          w' : Worker
          w' = record w { tx = clear_sets w.tx; phase = leaving true }

          s' : Shared
          s' = publish threshold n i s.shared w.tx

          p : IsPublished s.shared s' s.log
          p =
              publish-IsPublished threshold n i s.shared w.tx s.log writing.own inv.window lt
                (omega
                  (arith, inv.ids, le-sum_of is_storing n s.workers i lt, own_storing.1, small))
                writing.found writing.writes

    -- A round of the loop of `writePhase`.
    pub store_step :
        (k : ℕ) (rest : List ℕ)
        → w.phase ≡ storing (k ∷ rest)
        → Inv n first
            (advance s i (record {
              shared = record s.shared { table = assign s.shared.table k w.tx.write_val };
              worker = record w { phase = storing rest };
              logged = none;
            }))
            db
    store_step k rest e = record {
      serial = inv.serial;
      lock = next_lock inv i lt s.shared.global_lock w' (λ x a. ground arith);
      ids =
          omega (
            arith,
            inv.ids,
            sum_of-assign is_storing n s.workers i w',
            (own_storing (k ∷ rest) e).1,
          );
      window = record {
        size = inv.window.size;
        small = inv.window.small;
        word = inv.window.word;
        holds = inv.window.holds;
      };
      settled = λ j hj.
          at_each (λ x. IsSettled x.phase db s.log s.shared.tx_id x.tx) s.workers i w' j
            (record {
              own = before.own;
              found = before.found;
              writes = before.writes;
              within = λ j'. omega (arith, before.within j');
            })
            (λ other. inv.settled j hj);
      clean = λ j quiet. elim (Bool-cases (k == j)) [
        | inl here ↦ rw here (inv.dirty i j lt (ground (arith, own_pending (k ∷ rest) e j)))
        | inr other ↦ rw other (
            inv.clean j (
              was_quiet inv i lt j w' quiet
                (ground (arith, own_pending (k ∷ rest) e j, own_quiet inv i lt j w' quiet))))
      ];
      dirty = λ j j' hj.
          at_each (λ x. 1 ≤ pending_on j' x → db j' ≡ x.tx.write_val) s.workers i w' j
            (λ h. inv.dirty i j' lt (omega (arith, h, own_pending (k ∷ rest) e j')))
            (λ other. inv.dirty j j' hj);
    }
      where
        w' : Worker
        w' = record w { phase = storing rest }

        before : IsWriting s.log s.shared.tx_id w.tx (k ∷ rest)
        before = writing (k ∷ rest) e
