-- ===== src/Timestamps/Stores.antt =====
-- The steps that store the word of a tuple, which shows a write that was pending.
use ccbench.Common.{
  ℕ, suc, ◌+◌, ◌≤◌, ◌<◌, ◌≡◌, refl, sym, subst, ◌∙◌, ◌⊎◌, inl, inr, false, ◌==◌, if◌then◌else◌,
  arith, Bool-cases, ==_iff,
}
use ccbench.Common.Family.{assign, sum_of, sum_of-assign, le-sum_of}
use ccbench.Serial.{Db}
use ccbench.Timestamps.History.{state_at, IsBefore-later}
use ccbench.Timestamps.Protocol.{Cell, Protocol, View, bit}
use ccbench.Timestamps.Invariant.{IsCovered, Inv}
use ccbench.Timestamps.Advance.{moved, Keeps-Inv}
use ccbench.Timestamps.Calm.{IsCovered-later, readers_later, writers_later}

module _ {π : Protocol} {n : ℕ} {first : Db} {m : ℕ} {s : View π} (inv : Inv π n first m s) (i : ℕ)
    (lt : i < n) (w' : π.Worker) where
  abbrev w : π.Worker
  w = s.workers i

  -- The word of a tuple is stored and unlocks it; its payload has been stored before.
  pub record IsStore (k₀ : ℕ) (c' : ℕ → Cell) : Type 0 where
    pub lists :
        (k : ℕ)
        → (π.held k w ≡ (if k₀ == k then 1 else 0) + π.held k w')
          × (π.claims k w ≡ (if k₀ == k then 1 else 0) + π.claims k w')
          × (π.pending k w ≡ (if k₀ == k then 1 else 0) + π.pending k w')
    pub there : c' k₀ ≡ record { lock = false; wts = π.ts w; rts = π.ts w; val = (s.cells k₀).val }
    pub elsewhere : (k : ℕ) → (k₀ == k) ≡ false → c' k ≡ s.cells k
    pub same_ts : π.ts w' ≡ π.ts w
    pub same_payload : π.payload w' ≡ π.payload w
    pub payload : (s.cells k₀).val ≡ π.payload w

  module _ (k₀ : ℕ) (c' : ℕ → Cell) (d : IsStore k₀ c') where
    at_key :
        (P : ℕ → Cell → Type 0) (k : ℕ)
        → P k₀ (record { lock = false; wts = π.ts w; rts = π.ts w; val = (s.cells k₀).val })
        → ((k₀ == k) ≡ false → P k (s.cells k))
        → P k (c' k)
    at_key P k own others = elim (Bool-cases (k₀ == k)) [
      | inl here ↦
          subst (λ (x : ℕ). P x (c' x)) ((==_iff k₀ k).0 here) (subst (P k₀) (sym d.there) own)
      | inr other ↦ subst (P k) (sym (d.elsewhere k other)) (others other)
    ]

    once :
        (π.held k₀ w ≡ 1)
        × (π.pending k₀ w ≡ 1)
        × (π.claims k₀ w ≡ 1)
        × (π.held k₀ w' ≡ 0)
        × (π.claims k₀ w' ≡ 0)
        × (π.pending k₀ w' ≡ 0)
        × (bit (s.cells k₀).lock ≡ 1)
    once = ground (
      arith,
      d.lists k₀,
      inv.locks k₀,
      le-sum_of (π.held k₀) n s.workers i lt,
      π.claims-le-held k₀ w,
      π.pending-le-claims k₀ w,
    )

    later : (s.cells k₀).rts < π.ts w
    later = inv.claimed i k₀ lt (omega (arith, once))

    was_quiet_at :
        (k : ℕ)
        → (k₀ == k) ≡ false
        → sum_of (π.pending k) n (assign s.workers i w') ≡ 0
        → sum_of (π.pending k) n s.workers ≡ 0
    was_quiet_at k o quiet =
        ground (arith, quiet, d.lists k, o, sum_of-assign (π.pending k) n s.workers i w' lt)

    up : (k : ℕ) → (s.cells k).rts ≤ (c' k).rts
    up k = at_key (λ k v. (s.cells k).rts ≤ v.rts) k (omega (arith, later)) (λ o. omega arith)

    IsCovered-now :
        (k ts : ℕ) → IsCovered π n s k ts → IsCovered π n (moved s i w' c' s.history) k ts
    IsCovered-now = IsCovered-later inv i lt w' c' s.history up (λ k h.
        at_key
          (λ k v.
            1 ≤ π.pending k w → ((1 ≤ π.pending k w') × (π.ts w' ≡ π.ts w)) ⊎ (π.ts w ≤ v.rts))
          k (λ h. inr (omega arith)) (λ o h. inl (ground (arith, d.lists k, h, o), d.same_ts)) h)

    pub store_step : Inv π n first (suc m) (moved s i w' c' s.history)
    store_step = Keeps-Inv inv i lt w' c' s.history (record {
      locks = λ k.
          at_key (λ k v. π.held k w' + bit (s.cells k).lock ≡ π.held k w + bit v.lock) k
            (omega (arith, once)) (λ o. ground (arith, d.lists k, o));
      range = λ k. at_key (λ k v. v.wts ≤ v.rts) k (omega arith) (λ o. inv.range k);
      table_ts = λ k.
          at_key (λ k v. v.rts ≤ suc m) k (omega (arith, inv.commit_ts i lt))
            (λ o. omega (arith, inv.table_ts k));
      commit_ts = omega (arith, inv.commit_ts i lt, d.same_ts);
      history_ts = IsBefore-later s.history m (suc m) (omega arith) inv.history_ts;
      sorted = inv.sorted;
      serial = inv.serial;
      readers = readers_later inv i lt w' c' s.history IsCovered-now;
      writers = writers_later inv i lt w' c' s.history IsCovered-now;
      frozen = λ k h l.
          at_key (λ k v. π.held k w ≡ 0 → v.rts ≡ (s.cells k).rts) k
            (λ h. absurd (omega (arith, h, once))) (λ o h. refl) h;
      claimed = λ k h.
          at_key (λ k v. 1 ≤ π.claims k w' → v.rts < π.ts w') k
            (λ h. absurd (omega (arith, h, once)))
            (λ o h. omega (arith, d.same_ts, inv.claimed i k lt (ground (arith, d.lists k, h)))) h;
      others = λ k ts h l. refl;
      current = λ k ts quiet.
          at_key
            (λ k v.
              sum_of (π.pending k) n (assign s.workers i w') ≡ 0
              → v.wts ≤ ts
              → state_at first s.history ts k ≡ v.val)
            k (λ q le. inv.fresh i k₀ ts lt (omega (arith, once)) le ∙ sym d.payload)
            (λ o q le. inv.current k ts (was_quiet_at k o q) le) quiet;
      fresh = λ k ts h le.
          inv.fresh i k ts lt (ground (arith, d.lists k, h)) (omega (arith, le, d.same_ts))
          ∙ sym d.same_payload;
    })
