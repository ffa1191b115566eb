-- ===== src/Silo/Locking.antt =====
-- The steps of silo/ that set and clear the lock bit of a tuple.
use ccbench.Common.{
  ℕ, ◌+◌, ◌≤◌, ◌<◌, ◌≡◌, refl, ap, subst, ◌∙◌, Bool, true, false, ◌==◌, if◌then◌else◌, List, [],
  ◌∷◌, ◌++◌, All-append, All-map, count, arith, if_cases,
}
use mathlib.Core.List.{append_assoc}
use ccbench.Common.Family.{assign, at_key, sum_of-assign, le-sum_of}
use ccbench.Serial.{Db}
use ccbench.Timestamps.Protocol.{bit}
use ccbench.Timestamps.Calm.{calm_step}
use ccbench.Silo.Tidword.{version, max_word, max_word-version, max_word-HasRoom}
use ccbench.Silo.Operations.{Tuple, Table, WriteElement, write_keys, set_lock, aborted}
use ccbench.Silo.Workers.{
  Phase, Worker, Shared, Progress, moves, goes_to, locking, unlocking, locks,
}
use ccbench.Silo.System.{System, advance}
use ccbench.Silo.World.{Grows, Keeps, IsLocking, IsSettled}
use ccbench.Silo.Holding.{held_on, pending_on, claims_on}
use ccbench.Silo.Growing.{IsSettled-grows}
use ccbench.Silo.Invariant.{world, view, Inv, IsRoomy, go, still}

version-set_lock : (b : Bool) (v : Tuple) → version (set_lock b v).tidword ≡ version v.tidword
unfolding version
version-set_lock b v = refl

pub count-append_keys :
    (k : ℕ) (ws : List WriteElement) (e : WriteElement)
    → count k (write_keys (ws ++ e ∷ [])) ≡ count k (write_keys ws) + (if e.key == k then 1 else 0)
count-append_keys k [] e = ground arith
count-append_keys k (w ∷ ws) e = ground (arith, count-append_keys k ws e)

module _ {n : ℕ} {first : Db} {s : System} (inv : Inv n first s) (i : ℕ) (lt : i < n) where
  abbrev w : Worker
  w = s.workers i

  abbrev t : Table
  t = s.shared.table

  -- The lock bit of `k₀` becomes `b`, by a worker without a decided transaction.
  relock :
      (k₀ : ℕ) (b : Bool) (w' : Worker)
      → ((k : ℕ)
          → held_on k w' + bit (t k).tidword.lock
            ≡ held_on k w + bit (assign t k₀ (set_lock b (t k₀)) k).tidword.lock)
      → ((k : ℕ) → pending_on k w' ≡ 0)
      → ((k : ℕ) → pending_on k w ≡ 0)
      → ((k : ℕ) → claims_on k w' ≡ 0)
      → w'.ticket ≤ s.clock
      → IsSettled (world n first s) w'.phase w'.tx w'.ticket
      → Inv n first
          (advance s i (moves (record s.shared { table = assign t k₀ (set_lock b (t k₀)) }) w'))
  relock k₀ b w' h p q c le se =
      go inv i lt (moves g' w')
        (calm_step inv.core i lt w' (view s').cells (record {
          wts_up = λ k. omega arith;
          rts_up = λ k. omega arith;
          range = inv.core.range;
          table_ts = λ k. omega (arith, inv.core.table_ts k);
          frozen = λ k z l. refl;
          same_val = λ k z. same_val k;
          locks = h;
          same_pending = λ k. omega (arith, p k, q k);
          same_write = λ k z. absurd (omega (arith, z, p k));
          commit_ts = omega (arith, le);
          claimed = λ k z. absurd (omega (arith, z, c k));
        }))
        grows (λ k z l. keeps k)
        (IsSettled-grows grows w'.phase w'.tx w'.ticket (λ k z. keeps k) se)
    where
      g' : Shared
      g' = record s.shared { table = assign t k₀ (set_lock b (t k₀)) }

      s' : System
      s' = advance s i (moves g' w')

      same_val : (k : ℕ) → (g'.table k).val ≡ (t k).val
      same_val k =
          at_key (λ j (v : Tuple). v.val ≡ (t j).val) t k₀ (set_lock b (t k₀)) k refl (λ o. refl)

      same_ver : (k : ℕ) → version (g'.table k).tidword ≡ version (t k).tidword
      same_ver k =
          at_key (λ j (v : Tuple). version v.tidword ≡ version (t j).tidword) t k₀
            (set_lock b (t k₀)) k (version-set_lock b (t k₀)) (λ o. refl)

      keeps : (k : ℕ) → Keeps (world n first s) (world n first s') k
      keeps k = record { ver = same_ver k; val = same_val k; at = λ ts. refl }

      grows : (k : ℕ) → Grows (world n first s) (world n first s') k
      grows k = record {
        ver = omega (arith, same_ver k);
        rts = omega arith;
        same_wts = λ v. omega arith;
        past = λ ts z. refl;
        payload = λ v quiet. (
          omega (arith, quiet, p k, q k, sum_of-assign (pending_on k) n s.workers i w' lt),
          same_val k,
        );
      }

  -- The facts about the phase that the worker is in.
  pub record At (ph : Phase) : Type 0 where
    pub here : w.phase ≡ ph
    pub held_as : (k : ℕ) → held_on k w ≡ held_on k (record w { phase = ph })
    pub pending_as : (k : ℕ) → pending_on k w ≡ pending_on k (record w { phase = ph })
    pub claims_as : (k : ℕ) → claims_on k w ≡ claims_on k (record w { phase = ph })
    pub settled : IsSettled (world n first s) ph w.tx w.ticket
    pub bound : w.ticket ≤ s.clock

  pub at : (ph : Phase) → w.phase ≡ ph → At ph
  at ph e = record {
    here = e;
    held_as = λ k. ap (λ (p : Phase). held_on k (record w { phase = p })) e;
    pending_as = λ k. ap (λ (p : Phase). pending_on k (record w { phase = p })) e;
    claims_as = λ k. ap (λ (p : Phase). claims_on k (record w { phase = p })) e;
    settled =
        subst (λ (p : Phase). IsSettled (world n first s) p w.tx w.ticket) e (inv.settled i lt);
    bound = inv.core.commit_ts i lt;
  }

  pub unlocking_step :
      (rest : List WriteElement) (e : WriteElement)
      → At (unlocking (e ∷ rest))
      → Inv n first (
          advance s i (
            goes_to
              (record s.shared { table = assign t e.key (set_lock false (t e.key)) })
              w
              (unlocking rest)))
  unlocking_step rest e a =
      relock e.key false (record w { phase = unlocking rest })
        (λ k.
          at_key
            (λ j (v : Tuple).
              count j (write_keys rest) + bit (t j).tidword.lock ≡ held_on j w + bit v.tidword.lock)
            t e.key (set_lock false (t e.key)) k
            (ground (
              arith,
              a.held_as e.key,
              inv.core.locks e.key,
              le-sum_of (held_on e.key) n s.workers i lt,
            ))
            (λ o. ground (arith, o, a.held_as k)))
        (λ k. refl) (λ k. omega (arith, a.pending_as k)) (λ k. refl) a.bound tt

  module _ (room : IsRoomy s) (done rest : List WriteElement) (e : WriteElement)
      (a : At (locking done (e ∷ rest))) where
    locked : Worker
    locked = record w {
      tx = record w.tx { max_wset = max_word w.tx.max_wset (t e.key).tidword };
      phase = locking (done ++ e ∷ []) rest;
    }

    locked-IsLocking : IsLocking (world n first s) locked.tx (done ++ e ∷ []) rest
    unfolding locked
    locked-IsLocking =
        let up = max_word-version w.tx.max_wset (t e.key).tidword in
        record {
          split = append_assoc done (e ∷ []) rest ∙ a.settled.split;
          known = a.settled.known;
          room = (
            max_word-HasRoom w.tx.max_wset (t e.key).tidword a.settled.room.0 (room.words e.key),
            a.settled.room.1,
          );
          plain = a.settled.plain;
          below =
              All-append _ done (e ∷ [])
                (All-map _ _ (λ (x : WriteElement) le. omega (arith, le, up)) done a.settled.below)
                (up.1, tt);
        }

    pub locking_step : Inv n first (advance s i (locks s.shared w done e rest))
    unfolding locked
    locking_step =
        if_cases (λ (p : Progress). Inv n first (advance s i p)) (t e.key).tidword.lock _ _
          (λ taken.
            still inv i lt
              (record w { tx = record w.tx { status = aborted }; phase = unlocking done })
              s.shared.global_epoch (λ k. omega (arith, a.held_as k)) (λ k. refl)
              (λ k. omega (arith, a.pending_as k)) (omega (arith, a.bound))
              (λ k z. absurd (omega (arith, z))) tt)
          (λ free.
            relock e.key true locked
              (λ k.
                at_key
                  (λ j (v : Tuple).
                    held_on j locked + bit (t j).tidword.lock ≡ held_on j w + bit v.tidword.lock)
                  t e.key (set_lock true (t e.key)) k
                  (ground (arith, free, a.held_as e.key, count-append_keys e.key done e))
                  (λ o. ground (arith, o, a.held_as k, count-append_keys k done e)))
              (λ k. refl) (λ k. omega (arith, a.pending_as k)) (λ k. refl) a.bound locked-IsLocking)
