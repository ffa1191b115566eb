-- ===== src/Tictoc/Validation.antt =====
-- The rounds of the validation of tictoc/.
use ccbench.Common.{
  ℕ, suc, ◌^◌, ◌≤◌, ◌<◌, ◌≡◌, refl, sym, ap, ◌∙◌, ◌⊎◌, inl, inr, true, false, List, [], ◌∷◌, ◌++◌,
  All, All-map, arith, count, contains, contains-count,
}
use mathlib.Core.List.{append-nil}
use ccbench.Serial.{Db}
use ccbench.Tictoc.Types.{rts, SetElement, WriteElement, write_keys}
use ccbench.Tictoc.Operations.{
  check_read, search_write_set, passes, extends, fails, Check, max, raise_for_reads, newest,
}
use ccbench.Tictoc.Workers.{locking, validating, unlocking, Worker, System, after_check}
use ccbench.Tictoc.World.{IsKnown, IsChecked}
use ccbench.Timestamps.Invariant.{held-quiet}
use ccbench.Tictoc.Invariant.{world, Inv, moved}
use ccbench.Tictoc.Extending.{extend_step, passed}
use ccbench.Tictoc.Standing.{At, still, Result}
use ccbench.Tictoc.Locking.{le-max}

newest-le :
    (es : List SetElement) (c : ℕ)
    → (c ≤ newest es c) × All (λ (e : SetElement). e.tsw.wts ≤ newest es c) es
newest-le [] c = (omega arith, tt)
newest-le (e ∷ es) c =
    let (lo, all) = newest-le es (max c e.tsw.wts) in
    (omega (arith, lo, le-max c e.tsw.wts), (omega (arith, lo, le-max c e.tsw.wts), all))

newest_bound :
    (es : List SetElement) (c m : ℕ)
    → c ≤ m
    → All (λ (e : SetElement). e.tsw.wts ≤ m) es
    → newest es c ≤ m
newest_bound [] c m le h = le
newest_bound (e ∷ es) c m le h = newest_bound es (max c e.tsw.wts) m (ground (arith, le, h.0)) h.1

module _ {n : ℕ} {first : Db} {m : ℕ} {s : System} (inv : Inv n first m s) (i : ℕ)
    (lt : i < n) where
  abbrev w : Worker
  w = s.workers i

  -- An element that passes its round without an extension.
  passes-IsChecked :
      (checked rest : List SetElement) (e : SetElement)
      → check_read false s.table w.tx e ≡ passes
      → At inv i lt (validating checked (e ∷ rest))
      → IsChecked (world n first s) w.tx.commit_ts (write_keys w.tx.write_set) e
  unfolding check_read search_write_set
  passes-IsChecked checked rest e c a = elim reason [
    | inl old ↦ record {
      value = known.value w.tx.commit_ts above (inl old);
      lasting = inl (omega (arith, old, known.rts_bound));
    }
    | inr (same, inl mine) ↦
        let hit = contains-count e.key (write_keys w.tx.write_set) mine in
        let quiet =
          held-quiet inv.core i e.key lt (omega (arith, hit, a.held_as e.key))
            (a.pending_as e.key) in
        let later = inv.core.claimed i e.key lt (omega (arith, hit, a.claims_as e.key)) in
        record {
          value =
              inv.core.current e.key w.tx.commit_ts quiet (omega (arith, later))
              ∙ sym (inv.core.current e.key e.tsw.wts quiet (omega (arith, same)))
              ∙ known.value e.tsw.wts (omega arith) (inl (omega arith));
          lasting = inr hit;
        }
    | inr (same, inr up) ↦ record {
      value = known.value w.tx.commit_ts above (inr (same, up));
      lasting = inl up;
    }
  ]
    where
      known : IsKnown (world n first s) e
      known = a.settled.known.0

      above : e.tsw.wts ≤ w.tx.commit_ts
      above = a.settled.above.0

      reason :
          (w.tx.commit_ts ≤ rts e.tsw)
          ⊎ ((e.tsw.wts ≡ (s.table e.key).tsw.wts)
              × ((contains e.key (write_keys w.tx.write_set) ≡ true)
                  ⊎ (w.tx.commit_ts ≤ rts (s.table e.key).tsw)))
      reason = ground (arith, c)

  -- Step 2 of the validation raises `commit_ts` to the `wts` of all elements, and not above all words.
  pub raising_step :
      (done : List WriteElement)
      → At inv i lt (locking done [])
      → Inv n first (suc m) (
          moved s i
            (record w { tx = raise_for_reads w.tx; phase = validating [] w.tx.read_set })
            s.table
            s.history)
  unfolding raise_for_reads
  raising_step done a =
      still inv i lt _ a same (λ k. refl) (λ k. refl)
        (newest_bound w.tx.read_set w.tx.commit_ts m a.bound (
          All-map _ _
            (λ e (k : IsKnown (world n first s) e).
              omega (arith, k.wts_bound, inv.core.table_ts e.key))
            w.tx.read_set a.settled.0))
        (λ k z. (omega (arith, z, same k), (newest-le w.tx.read_set w.tx.commit_ts).0))
        (record {
          split = refl;
          done = tt;
          known = a.settled.0;
          above = (newest-le w.tx.read_set w.tx.commit_ts).1;
        })
    where
      same : (k : ℕ) → count k (write_keys w.tx.write_set) ≡ count k (write_keys done)
      same k =
          ap (λ (ws : List WriteElement). count k (write_keys ws))
            (sym a.settled.1 ∙ append-nil done)

  module _ (small : m < 2 ^ 48) where
    pub validation :
        (checked rest : List SetElement) (e : SetElement) (c : Check)
        → check_read false s.table w.tx e ≡ c
        → At inv i lt (validating checked (e ∷ rest))
        → Result inv i lt (after_check c s.table w checked e rest)
    unfolding check_read search_write_set
    validation checked rest e passes c a =
        still inv i lt (record w { phase = validating (checked ++ e ∷ []) rest }) a (λ k. refl)
          (λ k. refl) (λ k. refl) a.bound (λ k z. (z, omega arith))
          (passed inv i lt small checked rest e a.here (world n first s) a.settled
            (passes-IsChecked checked rest e c a))
    validation checked rest e extends c a =
        extend_step inv i lt small checked rest e a.here (ground (arith, c)) (ground (arith, c))
          (ground (arith, c))
    validation checked rest e fails c a =
        still inv i lt (record w { phase = unlocking w.tx.write_set }) a (λ k. refl) (λ k. refl)
          (λ k. refl) a.bound (λ k z. absurd (omega (arith, z))) tt
