-- ===== src/Silo/Checking.antt =====
-- The rounds of phase 2 of the validation of silo/.
use ccbench.Common.{
  ℕ, suc, ◌≤◌, ◌<◌, ◌≡◌, refl, sym, ◌∙◌, inl, inr, true, false, ◌==◌, if_cases, List, [], ◌∷◌, ◌++◌,
  All-append, count, contains-count, arith, Bool-cases,
}
use mathlib.Core.List.{append_assoc}
use ccbench.Common.Family.{assign, at_key, sum_of, sum_of-assign}
use ccbench.Serial.{Db}
use ccbench.Timestamps.History.{state_at}
use ccbench.Timestamps.Invariant.{held-quiet, free-quiet, free-held}
use ccbench.Timestamps.Calm.{calm_step}
use ccbench.Silo.Tidword.{version, max_word, max_word-HasRoom}
use ccbench.Silo.Operations.{Table, ReadElement, write_keys, is_current, aborted}
use ccbench.Silo.Workers.{
  Worker, Shared, Stamps, Progress, moves, validating, unlocking, checks, seen, max,
}
use ccbench.Silo.System.{System, advance}
use ccbench.Silo.World.{World, Grows, IsChecked, IsValidating}
use ccbench.Silo.Holding.{pending_on, claims_on, claims-le-held_on}
use ccbench.Silo.Growing.{IsSettled-grows}
use ccbench.Silo.Invariant.{world, view, Inv, IsRoomy, go, still}
use ccbench.Silo.Locking.{At}

module _ {n : ℕ} {first : Db} {s : System} (inv : Inv n first s) (i : ℕ) (lt : i < n) where
  abbrev pub w : Worker
  w = s.workers i

  abbrev t : Table
  t = s.shared.table

  abbrev pub ω : World
  ω = world n first s

  module _ (room : IsRoomy s) (checked rest : List ReadElement) (e : ReadElement)
      (a : At inv i lt (validating checked (e ∷ rest)))
      (current : is_current t w.tx.write_set e ≡ true) where
    same_version : version e.tidword ≡ version (t e.key).tidword
    unfolding is_current version
    same_version = ground (arith, current)

    -- The tuple is free, or the worker holds it.
    mine : (t e.key).tidword.lock ≡ true → 1 ≤ count e.key (write_keys w.tx.write_set)
    unfolding is_current
    mine l = ground (arith, current, l, contains-count e.key (write_keys w.tx.write_set))

    quiet : sum_of (pending_on e.key) n s.workers ≡ 0
    quiet = elim (Bool-cases (t e.key).tidword.lock) [
      | inl l ↦
          held-quiet inv.core i e.key lt (omega (arith, mine l, a.held_as e.key))
            (omega (arith, a.pending_as e.key))
      | inr f ↦ free-quiet inv.core e.key f
    ]

    value : state_at first s.history w.ticket e.key ≡ e.val
    value =
        inv.core.current e.key w.ticket quiet (a.settled.dated.0.dated same_version)
        ∙ sym (a.settled.dated.0.known.value same_version quiet)

    passed : Worker
    passed = record w {
      tx = record w.tx { max_rset = max_word w.tx.max_rset (t e.key).tidword };
      phase = validating (checked ++ e ∷ []) rest;
    }

    -- For a world where the element is covered.
    passed-IsValidating :
        (ρ : World)
        → IsValidating ρ w.tx w.ticket checked (e ∷ rest)
        → IsChecked ρ w.ticket (write_keys w.tx.write_set) e
        → IsValidating ρ passed.tx w.ticket (checked ++ e ∷ []) rest
    unfolding passed
    passed-IsValidating ρ v c = record {
      split = append_assoc checked (e ∷ []) rest ∙ v.split;
      done = All-append _ checked (e ∷ []) v.done (c, tt);
      dated = v.dated.1;
      room =
          (v.room.0, max_word-HasRoom w.tx.max_rset (t e.key).tidword v.room.1 (room.words e.key));
      plain = v.plain;
      below = v.below;
    }

    passes_held : (t e.key).tidword.lock ≡ true → Inv n first (advance s i (moves s.shared passed))
    unfolding passed
    passes_held l =
        still inv i lt passed s.shared.global_epoch (λ k. omega (arith, a.held_as k)) (λ k. refl)
          (λ k. omega (arith, a.pending_as k)) (omega (arith, a.bound))
          (λ k z. inv.core.claimed i k lt (omega (arith, z, a.claims_as k)))
          (passed-IsValidating ω a.settled (record { value = value; lasting = inr (mine l) }))

    module _ (free : (t e.key).tidword.lock ≡ false) where
      abbrev new : Stamps
      new = record (s.shared.stamps e.key) { rts = max (s.shared.stamps e.key).rts w.ticket }

      abbrev g' : Shared
      g' = record s.shared { stamps = assign s.shared.stamps e.key new }

      abbrev s' : System
      s' = advance s i (moves g' passed)

      at_stamp :
          (P : ℕ → Stamps → Type 0) (k : ℕ)
          → P e.key new
          → ((e.key == k) ≡ false → P k (s.shared.stamps k))
          → P k (g'.stamps k)
      at_stamp P k = at_key P s.shared.stamps e.key new k

      max-le : (b c : ℕ) → (b ≤ max b c) × (c ≤ max b c)
      max-le b c = ground arith

      raise-Grows : (k : ℕ) → Grows (world n first s) (world n first s') k
      unfolding passed
      raise-Grows k = record {
        ver = omega arith;
        rts =
            at_stamp (λ j v. (s.shared.stamps j).rts ≤ v.rts) k
              (max-le (s.shared.stamps e.key).rts w.ticket).0 (λ o. omega arith);
        same_wts = λ z.
            at_stamp (λ j v. v.wts ≤ (s.shared.stamps j).wts) k (omega arith) (λ o. omega arith);
        past = λ ts z. refl;
        payload = λ v q. (
          omega (arith, q, a.pending_as k, sum_of-assign (pending_on k) n s.workers i passed lt),
          refl,
        );
      }

      passes_free : Inv n first (advance s i (moves g' passed))
      unfolding passed
      passes_free =
          go inv i lt (moves g' passed)
            (calm_step inv.core i lt passed (view s').cells (record {
              wts_up = λ k.
                  at_stamp (λ j v. (s.shared.stamps j).wts ≤ v.wts) k (omega arith)
                    (λ o. omega arith);
              rts_up = λ k. (raise-Grows k).rts;
              range = λ k.
                  at_stamp (λ j v. v.wts ≤ v.rts) k
                    (omega
                      (arith, inv.core.range e.key, max-le (s.shared.stamps e.key).rts w.ticket))
                    (λ o. inv.core.range k);
              table_ts = λ k.
                  at_stamp (λ j v. v.rts ≤ suc s.clock) k
                    (ground (arith, inv.core.table_ts e.key, a.bound))
                    (λ o. omega (arith, inv.core.table_ts k));
              frozen = λ k z l.
                  at_stamp (λ j v. (t j).tidword.lock ≡ true → v.rts ≡ (s.shared.stamps j).rts) k
                    (λ l. absurd (ground (arith, free, l))) (λ o l. refl) l;
              same_val = λ k z. refl;
              locks = λ k. omega (arith, a.held_as k);
              same_pending = λ k. omega (arith, a.pending_as k);
              same_write = λ k z. absurd (omega (arith, z));
              commit_ts = omega (arith, a.bound);
              claimed = λ k z.
                  at_stamp (λ j v. 1 ≤ claims_on j w → v.rts < w.ticket) k
                    (λ z. absurd (
                      omega
                        (arith, z, claims-le-held_on e.key w, free-held inv.core i e.key lt free)))
                    (λ o z. inv.core.claimed i k lt z) (omega (arith, z, a.claims_as k));
            }))
            raise-Grows (λ k z l. record { ver = refl; val = refl; at = λ ts. refl })
            (passed-IsValidating (world n first s')
              (IsSettled-grows raise-Grows (validating checked (e ∷ rest)) w.tx w.ticket
                (λ k z. record { ver = refl; val = refl; at = λ ts. refl }) a.settled)
              (record {
                value = value;
                lasting = inl (
                    at_stamp (λ j v. (j ≡ e.key) → w.ticket ≤ v.rts) e.key
                      (λ q. (max-le (s.shared.stamps e.key).rts w.ticket).1)
                      (λ o q. absurd (ground (arith, o))) refl);
              }))

    passes : Inv n first (advance s i (moves (seen s.shared e.key w.ticket) passed))
    passes =
        if_cases (λ (g : Shared). Inv n first (advance s i (moves g passed))) (t e.key).tidword.lock
          _ _ passes_held passes_free

  pub check_step :
      IsRoomy s
      → (checked rest : List ReadElement) (e : ReadElement)
      → At inv i lt (validating checked (e ∷ rest))
      → Inv n first (advance s i (checks s.shared w checked e rest))
  unfolding passed
  check_step room checked rest e a =
      if_cases (λ (p : Progress). Inv n first (advance s i p)) (is_current t w.tx.write_set e) _ _
        (passes room checked rest e a)
        (λ no_more.
          still inv i lt
            (record w { tx = record w.tx { status = aborted }; phase = unlocking w.tx.write_set })
            s.shared.global_epoch (λ k. omega (arith, a.held_as k)) (λ k. refl)
            (λ k. omega (arith, a.pending_as k)) (omega (arith, a.bound))
            (λ k z. absurd (omega (arith, z))) tt)
