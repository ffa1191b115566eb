-- ===== src/Si/Storing.antt =====
-- The steps of si/ that store to a version of the worker, or publish one.
use ccbench.Common.{ℕ, ◌≤◌, ◌≡◌, List, [], ◌∷◌, All, count, arith}
use ccbench.Common.Family.{at_key}
use ccbench.Si.Types.{Version, Tuple, Shared, SetElement, keys, version, set_version}
use ccbench.Si.Invariant.{IsCommitted, IsFlying, IsOrdered, IsOwned, HasWritten}
use ccbench.Si.Growing.{Grows}
use ccbench.Si.Versions.{not_both, store-IsOrdered}

module _ (g : Shared) (i : ℕ) (tuples : (k : ℕ) → IsOrdered g.allocated g.cctr (g.table k)) where
  module _ (txid : ℕ) (e : SetElement) (own : IsOwned g i txid e) (v' : Version)
      (same_prev : v'.committed_prev ≡ (version g e.key e.ver).committed_prev)
      (same_began : v'.began ≡ (version g e.key e.ver).began)
      (commits : IsCommitted v' → (v'.began ≤ v'.cstamp) × (v'.cstamp ≤ g.cctr)) where
    abbrev g' : Shared
    g' = set_version g e.key e.ver v'

    pub set_version-IsOrdered : (k : ℕ) → IsOrdered g'.allocated g'.cctr (g'.table k)
    set_version-IsOrdered k =
        at_key (λ j (t : Tuple). IsOrdered g.allocated g.cctr t) g.table e.key _ k
          (store-IsOrdered (tuples e.key) e.ver v' own.flying same_prev same_began commits)
          (λ o. tuples k)

    -- Every other version is as before.
    elsewhere : (k v : ℕ) → ((k ≡ e.key) → (v ≡ e.ver) → ⊥) → version g' k v ≡ version g k v
    elsewhere k v ne = ground (arith, ne)

    pub set_version-Grows : Grows i g g'
    set_version-Grows = record {
      allocated = omega arith;
      cctr = omega arith;
      committed = λ k v h.
          elsewhere k v
            (λ a b. ground (arith, a, b, h, own.flying, not_both (version g e.key e.ver).status));
      settled = λ k v lt h. elsewhere k v (λ a b. ground (arith, a, b, h, own.flying));
      foreign = λ k v h ne. elsewhere k v (λ a b. ne (ground (arith, a, b, own.owner)));
    }

    -- The elements with other keys are still the worker's.
    others-owned :
        (t : ℕ) (ws : List SetElement)
        → count e.key (keys ws) ≡ 0
        → All (IsOwned g i t) ws
        → All (IsOwned g' i t) ws
    others-owned t [] z h = tt
    others-owned t (f ∷ ws) z h =
        let same = elsewhere f.key f.ver (λ a b. ground (arith, z, a)) in
        (
          record {
            flying = rw same h.0.flying;
            owner = rw same h.0.owner;
            began = rw same h.0.began;
          },
          others-owned t ws (ground (arith, z)) h.1,
        )

    pub drop-HasWritten :
        (rest : List SetElement) → HasWritten g i txid (e ∷ rest) → HasWritten g' i txid rest
    drop-HasWritten rest h = record {
      owned = others-owned txid rest (ground (arith, h.once e.key)) h.owned.1;
      once = λ k. ground (arith, h.once k);
    }

    pub keep-HasWritten :
        (rest : List SetElement)
        → IsFlying v'
        → v'.owner ≡ i
        → HasWritten g i txid (e ∷ rest)
        → HasWritten g' i txid (e ∷ rest)
    keep-HasWritten rest flies mine h = record {
      owned = (
        record {
          flying = ground (arith, flies);
          owner = ground (arith, mine);
          began = ground (arith, same_began, own.began);
        },
        others-owned txid rest (ground (arith, h.once e.key)) h.owned.1,
      );
      once = h.once;
    }
