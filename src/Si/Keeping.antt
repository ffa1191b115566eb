-- ===== src/Si/Keeping.antt =====
-- What a step of a worker of si/ has to keep for the invariant to hold again.
use ccbench.Common.{
  ℕ, suc, ◌≤◌, ◌≡◌, inl, inr, refl, sym, subst, ◌==◌, ==_iff, Bool-cases, List, ◌∷◌, arith,
}
use ccbench.Si.Types.{Version, Shared, SetElement, version, set_version}
use ccbench.Si.Workers.{Phase, Worker, Progress, goes_to}
use ccbench.Si.System.{System, advance}
use ccbench.Si.Invariant.{IsCommitted, IsOrdered, HasWritten, IsSettled, Inv}
use ccbench.Si.Growing.{Grows, IsSettled-grows}
use ccbench.Si.Versions.{IsOrdered-later}
use ccbench.Si.Storing.{set_version-IsOrdered, set_version-Grows}

-- What a step of worker `i` leaves behind.
pub record IsKept (s : System) (i : ℕ) (p : Progress) : Type 0 where
  pub tuples : (k : ℕ) → IsOrdered p.shared.allocated p.shared.cctr (p.shared.table k)
  pub cctr : p.shared.cctr ≤ suc s.clock
  pub last : (j : ℕ) → p.shared.lastcstamp j ≤ p.shared.cctr
  pub grows : Grows i s.shared p.shared
  pub settled : IsSettled p.shared i p.worker.phase p.worker.tx

module _ {s : System} (inv : Inv s) (i : ℕ) where
  abbrev g : Shared
  g = s.shared

  abbrev w : Worker
  w = s.workers i

  pub kept-Inv : (p : Progress) → IsKept s i p → Inv (advance s i p)
  kept-Inv p k = record {
    tuples = k.tuples;
    allocated = omega (arith, inv.allocated, k.grows.allocated);
    cctr = k.cctr;
    last = k.last;
    settled = λ j. elim (Bool-cases (i == j)) [
      | inl own ↦ rw own (
          subst (λ (m : ℕ). IsSettled p.shared m p.worker.phase p.worker.tx) ((==_iff i j).0 own)
            k.settled)
      | inr other ↦ rw other (
          IsSettled-grows k.grows j (λ z. ground (arith, other, z)) (s.workers j).phase
            (s.workers j).tx (inv.settled j))
    ];
  }

  -- A step that stores nothing others see.
  pub quiet :
      (w' : Worker) → IsSettled g i w'.phase w'.tx → IsKept s i (record { shared = g; worker = w' })
  quiet w' settled = record {
    tuples = inv.tuples;
    cctr = omega (arith, inv.cctr);
    last = inv.last;
    grows = record {
      allocated = omega arith;
      cctr = omega arith;
      committed = λ k v h. refl;
      settled = λ k v lt h. refl;
      foreign = λ k v h ne. refl;
    };
    settled = settled;
  }

  pub quietly :
      (p : Progress) → p.shared ≡ g → IsSettled g i p.worker.phase p.worker.tx → IsKept s i p
  quietly p same settled =
      subst (λ (h : Shared). IsKept s i (record { shared = h; worker = p.worker })) (sym same)
        (quiet p.worker settled)

  -- `CCtr` is counted up.
  pub counted :
      (w' : Worker)
      → IsSettled (record g { cctr = suc g.cctr }) i w'.phase w'.tx
      → IsKept s i (record { shared = record g { cctr = suc g.cctr }; worker = w' })
  counted w' settled = record {
    tuples =
        λ k. IsOrdered-later (inv.tuples k) g.allocated (suc g.cctr) (omega arith) (omega arith);
    cctr = omega (arith, inv.cctr);
    last = λ j. omega (arith, inv.last j);
    grows = record {
      allocated = omega arith;
      cctr = omega arith;
      committed = λ k v h. refl;
      settled = λ k v lt h. refl;
      foreign = λ k v h ne. refl;
    };
    settled = settled;
  }

  -- A store to the version `e` in flight, with `CCtr` and the number of versions as before.
  pub stored :
      (e : SetElement) (rest : List SetElement) (written : HasWritten g i w.tx.txid (e ∷ rest))
      (v' : Version)
      → v'.committed_prev ≡ (version g e.key e.ver).committed_prev
      → v'.began ≡ (version g e.key e.ver).began
      → (IsCommitted v' → (v'.began ≤ v'.cstamp) × (v'.cstamp ≤ g.cctr))
      → (ph : Phase) → IsSettled (set_version g e.key e.ver v') i ph w.tx
      → IsKept s i (goes_to (set_version g e.key e.ver v') w ph)
  stored e rest written v' prev began commits ph settled = record {
    tuples = set_version-IsOrdered g i inv.tuples w.tx.txid e written.owned.0 v' prev began commits;
    cctr = omega (arith, inv.cctr);
    last = inv.last;
    grows = set_version-Grows g i inv.tuples w.tx.txid e written.owned.0 v' prev began commits;
    settled = settled;
  }
