-- ===== src/Tictoc/Locking.antt =====
-- The steps of tictoc/ that lock, unlock and copy a payload into the table.
use ccbench.Common.{
  ℕ, suc, ◌+◌, ◌≤◌, ◌<◌, ◌≡◌, refl, subst, ◌∙◌, inl, inr, true, false, ◌==◌, if◌then◌else◌, List,
  [], ◌∷◌, ◌++◌, arith, count, Bool-cases, ==_iff, ==_refl,
}
use mathlib.Core.List.{append_assoc}
use ccbench.Common.Family.{assign, at_key, le-sum_of}
use ccbench.Serial.{Db}
use ccbench.Tictoc.Types.{Tuple, rts, Table, WriteElement, write_keys}
use ccbench.Tictoc.Operations.{
  max, raise_for_write, lock_tuple, unlock_tuple, store_payload, abort_status,
}
use ccbench.Tictoc.Workers.{locking, unlocking, storing, stored, Worker, System, locks}
use ccbench.Tictoc.World.{held_on, pending_on, IsSettled-grows}
use ccbench.Timestamps.Protocol.{bit}
use ccbench.Tictoc.Invariant.{Inv, moved}
use ccbench.Tictoc.Calm.{IsCalm, calm_step}
use ccbench.Tictoc.Standing.{At, still, Result}

pub le-max : (a b : ℕ) → (a ≤ max a b) × (b ≤ max a b)
le-max a b = ground arith

count-append_keys :
    (k : ℕ) (ws : List WriteElement) (e : WriteElement)
    → count k (write_keys (ws ++ e ∷ [])) ≡ count k (write_keys ws) + (if e.key == k then 1 else 0)
count-append_keys k [] e = ground arith
count-append_keys k (w ∷ ws) e = ground (arith, count-append_keys k ws e)

module _ {n : ℕ} {first : Db} {m : ℕ} {s : System} (inv : Inv n first m s) (i : ℕ)
    (lt : i < n) where
  abbrev w : Worker
  w = s.workers i

  pub locking_step :
      (done rest : List WriteElement) (e : WriteElement)
      → At inv i lt (locking done (e ∷ rest))
      → Result inv i lt (locks s.table w done e rest)
  unfolding lock_tuple raise_for_write
  locking_step done rest e a = elim (Bool-cases (s.table e.key).tsw.lock) [
    | inl taken ↦ rw taken (
        still inv i lt (record w { tx = abort_status w.tx; phase = unlocking done }) a (λ k. refl)
          (λ k. refl) (λ k. refl) a.bound (λ k z. absurd (omega (arith, z))) tt)
    | inr free ↦ rw free (calm_step inv i lt w' t' (calm free))
  ]
    where
      w' : Worker
      w' = record w {
        tx = raise_for_write s.table w.tx e.key;
        phase = locking (done ++ e ∷ []) rest;
      }

      new : Tuple
      new = record (s.table e.key) { tsw = record (s.table e.key).tsw { lock = true } }

      t' : Table
      t' = assign s.table e.key new

      same_val : (k : ℕ) → (t' k).val ≡ (s.table k).val
      same_val k = at_key (λ k v. v.val ≡ (s.table k).val) s.table e.key new k refl (λ o. refl)

      calm : (s.table e.key).tsw.lock ≡ false → IsCalm inv i lt w' t'
      calm free = record {
        same_wts = λ k.
            at_key (λ k v. v.tsw.wts ≡ (s.table k).tsw.wts) s.table e.key new k refl (λ o. refl);
        same_delta = λ k.
            at_key (λ k v. v.tsw.delta ≡ (s.table k).tsw.delta) s.table e.key new k refl
              (λ o. refl);
        same_val = λ k z. same_val k;
        locks = λ k.
            at_key
              (λ k v.
                (s.table e.key).tsw.lock ≡ false
                → held_on k w' + bit (s.table k).tsw.lock ≡ held_on k w + bit v.tsw.lock)
              s.table e.key new k
              (λ f. ground (arith, f, a.held_as e.key, count-append_keys e.key done e))
              (λ o f. ground (arith, o, a.held_as k, count-append_keys k done e)) free;
        same_pending = λ k. omega (arith, a.pending_as k);
        same_write = λ k z. absurd (omega (arith, z));
        commit_ts = ground (arith, a.bound, inv.core.table_ts e.key);
        claimed = λ k z. elim (Bool-cases (e.key == k)) [
          | inl own ↦
              subst (λ (x : ℕ). rts (s.table x).tsw < w'.tx.commit_ts) ((==_iff e.key k).0 own)
                (ground arith)
          | inr other ↦
              let old =
                inv.core.claimed i k lt
                  (ground (arith, other, z, a.claims_as k, count-append_keys k done e)) in
              omega (arith, old, le-max w.tx.commit_ts (rts (s.table e.key).tsw + 1))
        ];
        settled = λ grows.
            IsSettled-grows grows (λ k. omega arith) w'.phase w'.tx (λ k ts z. (refl, same_val k))
              (a.settled.0, append_assoc done (e ∷ []) rest ∙ a.settled.1);
      }

  pub unlocking_step :
      (rest : List WriteElement) (e : WriteElement)
      → At inv i lt (unlocking (e ∷ rest))
      → Inv n first
          (suc m)
          (moved s i (record w { phase = unlocking rest }) (unlock_tuple s.table e.key) s.history)
  unfolding unlock_tuple
  unlocking_step rest e a = calm_step inv i lt w' t' (record {
    same_wts =
        λ k. at_key (λ k v. v.tsw.wts ≡ (s.table k).tsw.wts) s.table e.key new k refl (λ o. refl);
    same_delta = λ k.
        at_key (λ k v. v.tsw.delta ≡ (s.table k).tsw.delta) s.table e.key new k refl (λ o. refl);
    same_val = λ k z. at_key (λ k v. v.val ≡ (s.table k).val) s.table e.key new k refl (λ o. refl);
    locks = λ k.
        at_key (λ k v. held_on k w' + bit (s.table k).tsw.lock ≡ held_on k w + bit v.tsw.lock)
          s.table e.key new k
          (ground (
            arith,
            a.held_as e.key,
            inv.core.locks e.key,
            le-sum_of (held_on e.key) n s.workers i lt,
          ))
          (λ o. ground (arith, o, a.held_as k));
    same_pending = λ k. omega (arith, a.pending_as k);
    same_write = λ k z. absurd (omega (arith, z));
    commit_ts = omega (arith, a.bound);
    claimed = λ k z. absurd (omega (arith, z));
    settled = λ grows. tt;
  })
    where
      w' : Worker
      w' = record w { phase = unlocking rest }

      new : Tuple
      new = record (s.table e.key) { tsw = record (s.table e.key).tsw { lock = false } }

      t' : Table
      t' = assign s.table e.key new

  pub storing_step :
      (rest : List WriteElement) (e : WriteElement)
      → At inv i lt (storing (e ∷ rest))
      → Inv n first (suc m) (
          moved s i
            (record w { phase = stored (e ∷ rest) })
            (store_payload s.table e.key w.tx.write_val)
            s.history)
  unfolding store_payload
  storing_step rest e a = calm_step inv i lt w' t' (record {
    same_wts =
        λ k. at_key (λ k v. v.tsw.wts ≡ (s.table k).tsw.wts) s.table e.key new k refl (λ o. refl);
    same_delta = λ k.
        at_key (λ k v. v.tsw.delta ≡ (s.table k).tsw.delta) s.table e.key new k refl (λ o. refl);
    same_val = λ k z.
        at_key (λ k v. pending_on k w' ≡ 0 → v.val ≡ (s.table k).val) s.table e.key new k
          (λ z. absurd (ground (arith, z))) (λ o z. refl) z;
    locks = λ k.
        at_key (λ k v. held_on k w' + bit (s.table k).tsw.lock ≡ held_on k w + bit v.tsw.lock)
          s.table e.key new k (omega (arith, a.held_as e.key)) (λ o. omega (arith, a.held_as k));
    same_pending = λ k. omega (arith, a.pending_as k);
    same_write = λ k z. (refl, refl);
    commit_ts = omega (arith, a.bound);
    claimed = λ k z. inv.core.claimed i k lt (omega (arith, z, a.claims_as k));
    settled = λ grows. rw (==_refl e.key) refl;
  })
    where
      w' : Worker
      w' = record w { phase = stored (e ∷ rest) }

      new : Tuple
      new = record (s.table e.key) { val = w.tx.write_val }

      t' : Table
      t' = assign s.table e.key new
