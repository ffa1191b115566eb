-- ===== src/Timestamps/Invariant.antt =====
-- The invariant that relates every interleaving of the workers to a serial history.
use ccbench.Common.{
  ℕ, ◌≤◌, ◌<◌, ◌≡◌, ◌⊎◌, true, false, ◌==◌, All, arith, subst, inl, inr, Bool-cases, ==_iff,
}
use ccbench.Common.Family.{sum_of, pair-le-sum_of, le-sum_of, sum_of-eq-zero}
use ccbench.Serial.{SetElement, Db}
use ccbench.Timestamps.History.{Stamped, state_at, IsSorted, IsBefore, IsSerial, writes}
use ccbench.Timestamps.Protocol.{Protocol, View, bit}

-- A timestamp that the tuple covers, or will once a pending write is stored.
abbrev pub IsCovered : (π : Protocol) → ℕ → View π → ℕ → ℕ → Type 0
IsCovered π n s k ts =
    (ts ≤ (s.cells k).rts)
    ⊎ ((j : ℕ) × (j < n) × (1 ≤ π.pending k (s.workers j)) × (ts ≤ π.ts (s.workers j)))

pub record Inv (π : Protocol) (n : ℕ) (first : Db) (m : ℕ) (s : View π) : Type 0 where
  pub locks : (k : ℕ) → sum_of (π.held k) n s.workers ≡ bit (s.cells k).lock
  pub range : (k : ℕ) → (s.cells k).wts ≤ (s.cells k).rts
  pub table_ts : (k : ℕ) → (s.cells k).rts ≤ m
  pub commit_ts : (i : ℕ) → i < n → π.ts (s.workers i) ≤ m
  pub history_ts : IsBefore m s.history
  pub sorted : IsSorted s.history
  pub serial : IsSerial first s.history
  pub readers :
      All
        (λ (e : Stamped). All (λ (x : SetElement). IsCovered π n s x.key e.ts) e.commit.reads)
        s.history
  pub writers :
      All (λ (e : Stamped). (k : ℕ) → writes k e ≡ true → IsCovered π n s k e.ts) s.history
  pub claimed :
      (i k : ℕ) → i < n → 1 ≤ π.claims k (s.workers i) → (s.cells k).rts < π.ts (s.workers i)
  pub current :
      (k ts : ℕ)
      → sum_of (π.pending k) n s.workers ≡ 0
      → (s.cells k).wts ≤ ts
      → state_at first s.history ts k ≡ (s.cells k).val
  pub fresh :
      (i k ts : ℕ)
      → i < n
      → 1 ≤ π.pending k (s.workers i)
      → π.ts (s.workers i) ≤ ts
      → state_at first s.history ts k ≡ π.payload (s.workers i)

module _ {π : Protocol} {n : ℕ} {first : Db} {m : ℕ} {s : View π} (inv : Inv π n first m s) where
  -- No tuple is locked by two workers.
  pub exclusive :
      (i j k : ℕ)
      → i < n
      → j < n
      → (i == j) ≡ false
      → 1 ≤ π.held k (s.workers j)
      → π.held k (s.workers i) ≡ 0
  exclusive i j k hi hj ne h = ground (
    arith,
    inv.locks k,
    pair-le-sum_of (π.held k) n s.workers i j hi hj (λ e. absurd (ground (arith, e))),
  )

  -- What a worker has locked is locked.
  pub held-locked : (i k : ℕ) → i < n → 1 ≤ π.held k (s.workers i) → (s.cells k).lock ≡ true
  held-locked i k hi h = ground (arith, inv.locks k, le-sum_of (π.held k) n s.workers i hi)

  -- Nobody holds a tuple that is free, so no write of it is pending.
  pub free-held : (i k : ℕ) → i < n → (s.cells k).lock ≡ false → π.held k (s.workers i) ≡ 0
  free-held i k hi f = ground (arith, f, inv.locks k, le-sum_of (π.held k) n s.workers i hi)

  pub free-quiet : (k : ℕ) → (s.cells k).lock ≡ false → sum_of (π.pending k) n s.workers ≡ 0
  free-quiet k f = sum_of-eq-zero (π.pending k) n s.workers (λ i hi. omega (
    arith,
    free-held i k hi f,
    π.pending-le-claims k (s.workers i),
    π.claims-le-held k (s.workers i),
  ))

  -- No write of a tuple that a worker holds is pending, if it has none pending itself.
  pub held-quiet :
      (i k : ℕ)
      → i < n
      → 1 ≤ π.held k (s.workers i)
      → π.pending k (s.workers i) ≡ 0
      → sum_of (π.pending k) n s.workers ≡ 0
  held-quiet i k lt h p = sum_of-eq-zero (π.pending k) n s.workers (λ j hj.
      elim (Bool-cases (i == j)) [
        | inl same ↦ subst (λ (x : ℕ). π.pending k (s.workers x) ≡ 0) ((==_iff i j).0 same) p
        | inr other ↦
            let none_held : ¬ (1 ≤ π.held k (s.workers j)) =
              λ z. absurd (omega (arith, h, exclusive i j k lt hj other z)) in
            omega (
              arith,
              none_held,
              π.pending-le-claims k (s.workers j),
              π.claims-le-held k (s.workers j),
            )
      ])
