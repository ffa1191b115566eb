-- ===== src/Si/Publishing.antt =====
-- The compare-and-swap of `twrite`, which publishes a version.
use ccbench.Common.{ℕ, suc, ◌≤◌, ◌≡◌, refl, [], ◌∷◌, All-append, All-map, count-append, arith}
use mathlib.Core.List.{map-append}
use ccbench.Common.Family.{at_key}
use ccbench.Si.Types.{Tuple, Shared, SetElement, keys, version, publish}
use ccbench.Si.Workers.{Worker, desired, add_write}
use ccbench.Si.Invariant.{IsOrdered, IsOwned, IsActive, IsFound}
use ccbench.Si.Growing.{Grows, IsSeen-grows}
use ccbench.Si.Versions.{publish-IsOrdered, IsOrdered-later}

module _ (g : Shared) (i : ℕ) (w : Worker)
    (tuples : (k : ℕ) → IsOrdered g.allocated g.cctr (g.table k)) (key e v : ℕ)
    (active : IsActive g i w.tx) (found : IsFound g w.tx key e v)
    (seen : (version g key v).cstamp ≤ w.tx.txid) (same : (g.table key).latest ≡ e) where
  abbrev g' : Shared
  g' = publish g key (desired i w e v)

  pub publish-tuples : (k : ℕ) → IsOrdered g'.allocated g'.cctr (g'.table k)
  publish-tuples k =
      at_key (λ j (t : Tuple). IsOrdered (suc g.allocated) g.cctr t) g.table key _ k
        (publish-IsOrdered (tuples key) v (desired i w e v) refl refl (rw same found.top)
          found.committed seen (rw same found.settled))
        (λ o. IsOrdered-later (tuples k) (suc g.allocated) g.cctr (omega arith) (omega arith))

  elsewhere : (k u : ℕ) → (u ≡ g.allocated → ⊥) → version g' k u ≡ version g k u
  elsewhere k u ne = ground (arith, ne)

  pub publish-Grows : Grows i g g'
  publish-Grows = record {
    allocated = omega arith;
    cctr = omega arith;
    committed = λ k u h. elsewhere k u (λ z. ground (arith, z, h, (tuples k).fresh u));
    settled = λ k u lt h. elsewhere k u (λ z. omega (arith, z, lt));
    foreign = λ k u h ne. elsewhere k u (λ z. ground (arith, z, h, (tuples k).fresh u));
  }

  kept : (x : SetElement) → IsOwned g i w.tx.txid x → IsOwned g' i w.tx.txid x
  kept x h =
      let still =
        elsewhere x.key x.ver (λ z. ground (arith, z, h.flying, (tuples x.key).fresh x.ver)) in
      record { flying = rw still h.flying; owner = rw still h.owner; began = rw still h.began }

  added : IsOwned g' i w.tx.txid (record { key = key; ver = g.allocated })
  added = record { flying = ground arith; owner = ground arith; began = ground arith }

  pub publish-IsActive : IsActive g' i (add_write w.tx key g.allocated)
  publish-IsActive = record {
    written = record {
      owned =
          All-append (IsOwned g' i w.tx.txid) w.tx.write_set _
            (All-map _ _ kept w.tx.write_set active.written.owned) (added, tt);
      once = λ k.
          rw
            (map-append (λ (x : SetElement). x.key) w.tx.write_set
              (record { key = key; ver = g.allocated } ∷ []))
            (ground (
              arith,
              found.unwritten,
              active.written.once k,
              count-append k (keys w.tx.write_set) (key ∷ []),
            ));
    };
    seen = IsSeen-grows publish-Grows w.tx.txid w.tx.read_set active.seen;
    txid = active.txid;
    cstamp = active.cstamp;
  }
