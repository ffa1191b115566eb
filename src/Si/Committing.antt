-- ===== src/Si/Committing.antt =====
-- The steps of si/ that others see: a version is linked, a transaction commits or aborts.
use ccbench.Common.{
  ℕ, suc, ◌+◌, ◌%◌, ◌^◌, ◌≤◌, ◌<◌, ◌≡◌, refl, ◌==◌, ==_iff, if_cases, All, All-map, List, [], ◌∷◌,
  arith,
}
use ccbench.Procedure.{Procedure}
use ccbench.Si.Types
use ccbench.Si.Types.{
  Version, Tuple, Shared, SetElement, TxExecutor, search_read_set, search_write_set, version,
  set_version,
}
use ccbench.Si.Workers.{
  running, examining, linking, stamping, paying, releasing, ending, aborting, Worker, links, stamp,
  set_status, proceed,
}
use ccbench.Si.System.{System}
use ccbench.Si.Invariant.{
  IsCommitted, IsIdle, IsOwned, IsSeen, IsCommitting, IsActive, IsSettled, Inv,
}
use ccbench.Si.Growing.{IsSeen-grows}
use ccbench.Si.Versions.{not_both}
use ccbench.Si.Storing.{set_version-Grows, drop-HasWritten, keep-HasWritten}
use ccbench.Si.Publishing.{publish-tuples, publish-Grows, publish-IsActive}
use ccbench.Si.Keeping.{IsKept, quiet, counted, stored}

module _ {s : System} (inv : Inv s) (i : ℕ) where
  abbrev g : Shared
  g = s.shared

  abbrev w : Worker
  w = s.workers i

  module _ (room : s.clock + 1 < 2 ^ 32) where
    pub small : suc g.cctr % 2 ^ 32 ≡ suc g.cctr
    small = omega (arith, inv.cctr, room)

    pub links-IsKept :
        (key : ℕ) (todo : List Procedure) (e v : ℕ)
        → IsSettled g i (linking key todo e v) w.tx
        → IsKept s i (links i g w key todo e v)
    links-IsKept key todo e v (h, found, seen) =
        if_cases (IsKept s i) ((g.table key).latest == e) _ _
          (λ hit.
            let same = (==_iff (g.table key).latest e).0 hit in
            record {
              tuples = publish-tuples g i w inv.tuples key e v h found seen same;
              cctr = omega (arith, inv.cctr);
              last = inv.last;
              grows = publish-Grows g i w inv.tuples key e v h found seen same;
              settled = publish-IsActive g i w inv.tuples key e v h found seen same;
            })
          (λ miss.
            quiet inv i (record w { phase = examining key todo (g.table key).latest })
              (h, found.unwritten, (inv.tuples key).latest))

    pub commits-IsKept : IsActive g i w.tx → IsKept s i (proceed 0 i (running []) g w)
    unfolding proceed
    commits-IsKept h =
        counted inv i
          (record w {
            tx = record w.tx {
              cstamp = suc g.cctr % 2 ^ 32;
              status = Types.TransactionStatus.committed;
            };
            phase = stamping w.tx.write_set;
          })
          (record {
            written = record {
              owned =
                  All-map _ _
                    (λ e o. record { flying = o.flying; owner = o.owner; began = o.began })
                    w.tx.write_set h.written.owned;
              once = h.written.once;
            };
            seen = h.seen;
            cstamp = omega (arith, small, h.txid);
          })

    module _ (e : SetElement) (rest : List SetElement) where
      abbrev v : Version
      v = version g e.key e.ver

      -- What has been read stays as it is.
      kept-seen :
          (own : IsOwned g i w.tx.txid e) (v' : Version)
          (prev : v'.committed_prev ≡ v.committed_prev) (began : v'.began ≡ v.began)
          (commits : IsCommitted v' → (v'.began ≤ v'.cstamp) × (v'.cstamp ≤ g.cctr))
          → All (IsSeen g w.tx.txid) w.tx.read_set
          → All (IsSeen (set_version g e.key e.ver v') w.tx.txid) w.tx.read_set
      kept-seen own v' prev began commits =
          IsSeen-grows (set_version-Grows g i inv.tuples w.tx.txid e own v' prev began commits)
            w.tx.txid w.tx.read_set

      pub stamps-IsKept :
          IsCommitting g i w.tx (e ∷ rest) → IsKept s i (proceed 0 i (stamping (e ∷ rest)) g w)
      unfolding proceed
      stamps-IsKept h =
          let own = h.written.owned.0 in
          let never : IsCommitted v → ⊥ = λ c. not_both v.status c own.flying in
          stored inv i e rest h.written (stamp v w.tx.cstamp) refl refl (λ c. absurd (never c))
            (paying (e ∷ rest))
            (
              record {
                written =
                    keep-HasWritten g i inv.tuples w.tx.txid e own (stamp v w.tx.cstamp) refl refl
                      (λ c. absurd (never c)) rest own.flying own.owner h.written;
                seen = kept-seen own (stamp v w.tx.cstamp) refl refl (λ c. absurd (never c)) h.seen;
                cstamp = h.cstamp;
              },
              ground arith,
            )

      pub pays-IsKept :
          IsCommitting g i w.tx (e ∷ rest)
          → v.cstamp ≡ w.tx.cstamp
          → IsKept s i (proceed 0 i (paying (e ∷ rest)) g w)
      unfolding proceed
      pays-IsKept h stamped =
          let own = h.written.owned.0 in
          let never : IsCommitted v → ⊥ = λ c. not_both v.status c own.flying in
          stored inv i e rest h.written (record v { val = w.tx.write_val }) refl refl
            (λ c. absurd (never c)) (releasing (e ∷ rest))
            (
              record {
                written =
                    keep-HasWritten g i inv.tuples w.tx.txid e own
                      (record v { val = w.tx.write_val }) refl refl (λ c. absurd (never c)) rest
                      own.flying own.owner h.written;
                seen =
                    kept-seen own (record v { val = w.tx.write_val }) refl refl
                      (λ c. absurd (never c)) h.seen;
                cstamp = h.cstamp;
              },
              ground (arith, stamped),
            )

      pub releases-IsKept :
          IsCommitting g i w.tx (e ∷ rest)
          → v.cstamp ≡ w.tx.cstamp
          → IsKept s i (proceed 0 i (releasing (e ∷ rest)) g w)
      unfolding proceed
      releases-IsKept h stamped =
          let own = h.written.owned.0 in
          let commits : (v.began ≤ v.cstamp) × (v.cstamp ≤ g.cctr) =
            omega (arith, stamped, own.began, h.cstamp) in
          let done = set_status v Types.VersionStatus.committed in
          stored inv i e rest h.written done refl refl (λ c. commits) (stamping rest)
            (record {
              written =
                  drop-HasWritten g i inv.tuples w.tx.txid e own done refl refl (λ c. commits) rest
                    h.written;
              seen = kept-seen own done refl refl (λ c. commits) h.seen;
              cstamp = h.cstamp;
            })

      pub withdraws-IsKept :
          IsSettled g i (aborting (e ∷ rest)) w.tx
          → IsKept s i (proceed 0 i (aborting (e ∷ rest)) g w)
      unfolding proceed
      withdraws-IsKept h =
          let own = h.0.owned.0 in
          let gone = set_status v Types.VersionStatus.aborted in
          stored inv i e rest h.0 gone refl refl (λ c. ground (arith, c)) (aborting rest)
            (
              drop-HasWritten g i inv.tuples w.tx.txid e own gone refl refl (λ c. ground (arith, c))
                  rest h.0,
              h.1,
              kept-seen own gone refl refl (λ c. ground (arith, c)) h.2,
            )

    pub ends-IsKept : IsIdle g w.tx → IsKept s i (proceed 0 i ending g w)
    unfolding proceed
    ends-IsKept h = record {
      tuples = inv.tuples;
      cctr = omega (arith, inv.cctr);
      last = λ j. ground (arith, inv.last j, h.2);
      grows = record {
        allocated = omega arith;
        cctr = omega arith;
        committed = λ k v h. refl;
        settled = λ k v lt h. refl;
        foreign = λ k v h ne. refl;
      };
      settled = h;
    }
