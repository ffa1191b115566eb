-- ===== src/Timestamps/Advance.antt =====
-- What a step of one worker has to keep for the invariant to hold again.
use ccbench.Common.{ℕ, suc, ◌+◌, ◌≤◌, ◌<◌, ◌≡◌, ◌∙◌, true, false, ◌==◌, List, All, arith}
use ccbench.Common.Family.{assign, at_each, sum_of, sum_of-assign, le-sum_of}
use ccbench.Serial.{SetElement, Db}
use ccbench.Timestamps.History.{Stamped, state_at, IsSorted, IsBefore, IsSerial, writes}
use ccbench.Timestamps.Protocol.{Cell, Protocol, View, bit}
use ccbench.Timestamps.Invariant.{IsCovered, Inv, exclusive, held-locked}

-- The state after worker `i` has moved.
abbrev pub moved : {π : Protocol} → View π → ℕ → π.Worker → (ℕ → Cell) → List Stamped → View π
moved s i w' c' h' = record { cells = c'; workers = assign s.workers i w'; history = h' }

module _ {π : Protocol} {n : ℕ} {first : Db} {m : ℕ} {s : View π} (inv : Inv π n first m s) (i : ℕ)
    (lt : i < n) where
  pub record Keeps (w' : π.Worker) (c' : ℕ → Cell) (h' : List Stamped) : Type 0 where
    pub locks :
        (k : ℕ) → π.held k w' + bit (s.cells k).lock ≡ π.held k (s.workers i) + bit (c' k).lock
    pub range : (k : ℕ) → (c' k).wts ≤ (c' k).rts
    pub table_ts : (k : ℕ) → (c' k).rts ≤ suc m
    pub commit_ts : π.ts w' ≤ suc m
    pub history_ts : IsBefore (suc m) h'
    pub sorted : IsSorted h'
    pub serial : IsSerial first h'
    pub readers :
        All
          (λ (e : Stamped).
            All (λ (x : SetElement). IsCovered π n (moved s i w' c' h') x.key e.ts) e.commit.reads)
          h'
    pub writers :
        All
          (λ (e : Stamped). (k : ℕ) → writes k e ≡ true → IsCovered π n (moved s i w' c' h') k e.ts)
          h'
    pub frozen :
        (k : ℕ)
        → π.held k (s.workers i) ≡ 0
        → (s.cells k).lock ≡ true
        → (c' k).rts ≡ (s.cells k).rts
    pub claimed : (k : ℕ) → 1 ≤ π.claims k w' → (c' k).rts < π.ts w'
    pub others :
        (k ts : ℕ)
        → π.held k (s.workers i) ≡ 0
        → (s.cells k).lock ≡ true
        → state_at first h' ts k ≡ state_at first s.history ts k
    pub current :
        (k ts : ℕ)
        → sum_of (π.pending k) n (assign s.workers i w') ≡ 0
        → (c' k).wts ≤ ts
        → state_at first h' ts k ≡ (c' k).val
    pub fresh :
        (k ts : ℕ) → 1 ≤ π.pending k w' → π.ts w' ≤ ts → state_at first h' ts k ≡ π.payload w'

  -- A tuple that another worker has locked is locked, and not by this one.
  pub other-held :
      (j k : ℕ)
      → j < n
      → (i == j) ≡ false
      → 1 ≤ π.held k (s.workers j)
      → (π.held k (s.workers i) ≡ 0) × ((s.cells k).lock ≡ true)
  other-held j k hj ne h = (exclusive inv i j k lt hj ne h, held-locked inv j k hj h)

  pub Keeps-Inv :
      (w' : π.Worker) (c' : ℕ → Cell) (h' : List Stamped)
      → Keeps w' c' h'
      → Inv π n first (suc m) (moved s i w' c' h')
  Keeps-Inv w' c' h' p = record {
    locks = λ k. omega (
      arith,
      p.locks k,
      inv.locks k,
      sum_of-assign (π.held k) n s.workers i w' lt,
      le-sum_of (π.held k) n s.workers i lt,
    );
    range = p.range;
    table_ts = p.table_ts;
    commit_ts = λ j hj.
        at_each (λ w. π.ts w ≤ suc m) s.workers i w' j p.commit_ts
          (λ other. omega (arith, inv.commit_ts j hj));
    history_ts = p.history_ts;
    sorted = p.sorted;
    serial = p.serial;
    readers = p.readers;
    writers = p.writers;
    claimed = λ j k hj.
        at_each (λ w. 1 ≤ π.claims k w → (c' k).rts < π.ts w) s.workers i w' j (p.claimed k)
          (λ other h.
            let (free, locked) =
              other-held j k hj other (omega (arith, π.claims-le-held k (s.workers j))) in
            omega (arith, p.frozen k free locked, inv.claimed j k hj h));
    current = p.current;
    fresh = λ j k ts hj.
        at_each (λ w. 1 ≤ π.pending k w → π.ts w ≤ ts → state_at first h' ts k ≡ π.payload w)
          s.workers i w' j (p.fresh k ts)
          (λ other h le.
            let (free, locked) = other-held j k hj other (
              omega
                (arith, π.claims-le-held k (s.workers j), π.pending-le-claims k (s.workers j))) in
            p.others k ts free locked ∙ inv.fresh j k ts hj h le);
  }
