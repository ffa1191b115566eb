-- ===== src/Timestamps/Calm.antt =====
-- The steps that log nothing and store no payload of a decided transaction: they lock, unlock, copy a
-- payload, raise the timestamps of a tuple that is free, or only go on.
use ccbench.Common.{
  ℕ, suc, ◌+◌, ◌≤◌, ◌<◌, ◌≡◌, refl, sym, subst, ◌∙◌, ◌⊎◌, inl, inr, true, ◌==◌, List, All, All-map,
  arith, Bool-cases, ==_iff, ==_refl,
}
use ccbench.Common.Family.{assign, sum_of, sum_of-assign, le-sum_of}
use ccbench.Serial.{SetElement, Db}
use ccbench.Timestamps.History.{Stamped, IsBefore-later, writes}
use ccbench.Timestamps.Protocol.{Cell, Protocol, View, bit}
use ccbench.Timestamps.Invariant.{IsCovered, Inv}
use ccbench.Timestamps.Advance.{moved, Keeps-Inv}

module _ {π : Protocol} {n : ℕ} {first : Db} {m : ℕ} {s : View π} (inv : Inv π n first m s) (i : ℕ)
    (lt : i < n) where
  -- What is covered stays covered, if the timestamps only grow and each write that is no longer pending
  -- is stored.
  pub IsCovered-later :
      (w' : π.Worker) (c' : ℕ → Cell) (h' : List Stamped)
      → ((k : ℕ) → (s.cells k).rts ≤ (c' k).rts)
      → ((k : ℕ)
          → 1 ≤ π.pending k (s.workers i)
          → ((1 ≤ π.pending k w') × (π.ts w' ≡ π.ts (s.workers i)))
            ⊎ (π.ts (s.workers i) ≤ (c' k).rts))
      → (k ts : ℕ) → IsCovered π n s k ts
      → IsCovered π n (moved s i w' c' h') k ts
  IsCovered-later w' c' h' up pend k ts (inl below) = inl (omega (arith, up k))
  IsCovered-later w' c' h' up pend k ts (inr (j, hj, hit, le)) = elim (Bool-cases (i == j)) [
    | inl here ↦
        let same : i ≡ j = (==_iff i j).0 here in
        let hit_i : 1 ≤ π.pending k (s.workers i) =
          subst (λ (x : ℕ). 1 ≤ π.pending k (s.workers x)) (sym same) hit in
        let le_i : ts ≤ π.ts (s.workers i) =
          subst (λ (x : ℕ). ts ≤ π.ts (s.workers x)) (sym same) le in
        elim (pend k hit_i) [
          | inl (still, commit) ↦
              inr (i, lt, rw (==_refl i) still, rw (==_refl i) (omega (arith, commit, le_i)))
          | inr stored ↦ inl (omega (arith, stored, le_i))
        ]
    | inr other ↦ inr (j, hj, rw other hit, rw other le)
  ]

  -- The same for all that the history has read and written.
  pub readers_later :
      (w' : π.Worker) (c' : ℕ → Cell) (h' : List Stamped)
      → ((k ts : ℕ) → IsCovered π n s k ts → IsCovered π n (moved s i w' c' h') k ts)
      → All
          (λ (e : Stamped).
            All (λ (x : SetElement). IsCovered π n (moved s i w' c' h') x.key e.ts) e.commit.reads)
          s.history
  readers_later w' c' h' f =
      All-map _ _ (λ e r. All-map _ _ (λ x. f x.key e.ts) e.commit.reads r) s.history inv.readers

  pub writers_later :
      (w' : π.Worker) (c' : ℕ → Cell) (h' : List Stamped)
      → ((k ts : ℕ) → IsCovered π n s k ts → IsCovered π n (moved s i w' c' h') k ts)
      → All
          (λ (e : Stamped). (k : ℕ) → writes k e ≡ true → IsCovered π n (moved s i w' c' h') k e.ts)
          s.history
  writers_later w' c' h' f = All-map _ _ (λ e r k hit. f k e.ts (r k hit)) s.history inv.writers

  pub record IsCalm (w' : π.Worker) (c' : ℕ → Cell) : Type 0 where
    pub wts_up : (k : ℕ) → (s.cells k).wts ≤ (c' k).wts
    pub rts_up : (k : ℕ) → (s.cells k).rts ≤ (c' k).rts
    pub range : (k : ℕ) → (c' k).wts ≤ (c' k).rts
    pub table_ts : (k : ℕ) → (c' k).rts ≤ suc m
    pub frozen :
        (k : ℕ)
        → π.held k (s.workers i) ≡ 0
        → (s.cells k).lock ≡ true
        → (c' k).rts ≡ (s.cells k).rts
    pub same_val : (k : ℕ) → π.pending k w' ≡ 0 → (c' k).val ≡ (s.cells k).val
    pub locks :
        (k : ℕ) → π.held k w' + bit (s.cells k).lock ≡ π.held k (s.workers i) + bit (c' k).lock
    pub same_pending : (k : ℕ) → π.pending k w' ≡ π.pending k (s.workers i)
    pub same_write :
        (k : ℕ)
        → 1 ≤ π.pending k w'
        → (π.ts w' ≡ π.ts (s.workers i)) × (π.payload w' ≡ π.payload (s.workers i))
    pub commit_ts : π.ts w' ≤ suc m
    pub claimed : (k : ℕ) → 1 ≤ π.claims k w' → (c' k).rts < π.ts w'

  module _ (w' : π.Worker) (c' : ℕ → Cell) (p : IsCalm w' c') where
    still_quiet :
        (k : ℕ)
        → sum_of (π.pending k) n (assign s.workers i w') ≡ 0
        → (π.pending k w' ≡ 0) × (sum_of (π.pending k) n s.workers ≡ 0)
    still_quiet k quiet =
        let e = sum_of-assign (π.pending k) n s.workers i w' lt in
        let l = le-sum_of (π.pending k) n s.workers i lt in
        (omega (arith, quiet, p.same_pending k, e, l), omega (arith, quiet, p.same_pending k, e, l))

    covered : (k ts : ℕ) → IsCovered π n s k ts → IsCovered π n (moved s i w' c' s.history) k ts
    covered = IsCovered-later w' c' s.history p.rts_up (λ k h. inl (
      omega (arith, h, p.same_pending k),
      (p.same_write k (omega (arith, h, p.same_pending k))).0,
    ))

    pub calm_step : Inv π n first (suc m) (moved s i w' c' s.history)
    calm_step = Keeps-Inv inv i lt w' c' s.history (record {
      locks = p.locks;
      range = p.range;
      table_ts = p.table_ts;
      commit_ts = p.commit_ts;
      history_ts = IsBefore-later s.history m (suc m) (omega arith) inv.history_ts;
      sorted = inv.sorted;
      serial = inv.serial;
      readers = readers_later w' c' s.history covered;
      writers = writers_later w' c' s.history covered;
      frozen = p.frozen;
      claimed = p.claimed;
      others = λ k ts h l. refl;
      current = λ k ts quiet le.
          inv.current k ts (still_quiet k quiet).1 (omega (arith, le, p.wts_up k))
          ∙ sym (p.same_val k (still_quiet k quiet).0);
      fresh = λ k ts h le.
          inv.fresh i k ts lt (omega (arith, h, p.same_pending k))
            (omega (arith, le, p.same_write k h))
          ∙ sym (p.same_write k h).1;
    })
