-- ===== src/Timestamps/Commits.antt =====
-- The steps that commit: the decision of a transaction, and the store of a word that shows its write.
use ccbench.Common.{
  ℕ, suc, ◌≤◌, ◌<◌, ◌≡◌, refl, sym, subst, ◌∙◌, ◌⊎◌, inl, inr, true, ◌==◌, if◌then◌else◌, leb, ◌&&◌,
  All, All-map, arith, count, contains-count, not-contains-count, Bool-cases, ==_iff, ==_refl,
}
use ccbench.Common.Family.{assign, sum_of, sum_of-assign}
use ccbench.Serial.{Db, Commit, SetElement}
use ccbench.Timestamps.History.{
  All-insert, Stamped, insert, state_at, IsBefore-later, insert-IsBefore, insert-IsSorted,
  insert-IsSerial, state_at-insert, writes,
}
use ccbench.Timestamps.Protocol.{Protocol, View}
use ccbench.Timestamps.Invariant.{IsCovered, Inv, exclusive}
use ccbench.Timestamps.Advance.{moved, Keeps-Inv}
use ccbench.Timestamps.Calm.{IsCovered-later, readers_later, writers_later}

module _ {π : Protocol} {n : ℕ} {first : Db} {m : ℕ} {s : View π} (inv : Inv π n first m s) (i : ℕ)
    (lt : i < n) (w' : π.Worker) where
  abbrev w : π.Worker
  w = s.workers i

  -- A transaction is decided: all that it has read is the database at its timestamp, and lasts, and
  -- it has locked what it writes.
  pub record IsDecision (c : Commit) : Type 0 where
    pub same_held : (k : ℕ) → π.held k w' ≡ π.held k w
    pub same_claims : (k : ℕ) → π.claims k w' ≡ π.claims k w
    pub was_none : (k : ℕ) → π.pending k w ≡ 0
    pub now_pending : (k : ℕ) → π.pending k w' ≡ count k c.writes
    pub same_ts : π.ts w' ≡ π.ts w
    pub payload : π.payload w' ≡ c.val
    pub reads : All (λ (x : SetElement). state_at first s.history (π.ts w) x.key ≡ x.val) c.reads
    pub lasting :
        All
          (λ (x : SetElement). (π.ts w ≤ (s.cells x.key).rts) ⊎ (1 ≤ count x.key c.writes))
          c.reads

  module _ (c : Commit) (d : IsDecision c) where
    abbrev pub stamped : Stamped
    stamped = record { ts = π.ts w; commit = c }

    writes-claims : (k : ℕ) → writes k stamped ≡ true → 1 ≤ π.claims k w
    writes-claims k h = omega (
      arith,
      contains-count k c.writes h,
      d.now_pending k,
      d.same_claims k,
      π.pending-le-claims k w',
    )

    -- Of what this worker has locked, no other write is pending.
    covered_before : (k ts : ℕ) → writes k stamped ≡ true → IsCovered π n s k ts → ts < π.ts w
    covered_before k ts h (inl below) = omega (arith, inv.claimed i k lt (writes-claims k h))
    covered_before k ts h (inr (j, hj, hit, le)) = elim (Bool-cases (i == j)) [
      | inl here ↦ absurd (
          omega (
            arith,
            d.was_none k,
            subst (λ (x : ℕ). 1 ≤ π.pending k (s.workers x)) (sym ((==_iff i j).0 here)) hit,
          ))
      | inr other ↦ absurd (
          omega (
            arith,
            writes-claims k h,
            π.claims-le-held k w,
            exclusive inv i j k lt hj other (
                omega (
                  arith,
                  hit,
                  π.pending-le-claims k (s.workers j),
                  π.claims-le-held k (s.workers j),
                )),
          ))
    ]

    history_state :
        (ts k : ℕ)
        → state_at first (insert stamped s.history) ts k
          ≡ (if leb (π.ts w) ts && writes k stamped then c.val else state_at first s.history ts k)
    history_state ts k =
        state_at-insert first stamped s.history ts k
          (λ hit. All-map _ _ (λ e f g. covered_before k e.ts hit (f k g)) s.history inv.writers)

    -- The database before the timestamp, and at a tuple that is not written, is as it was.
    pub state_before :
        (ts k : ℕ)
        → ts ≤ (s.cells k).rts
        → state_at first (insert stamped s.history) ts k ≡ state_at first s.history ts k
    state_before ts k le =
        history_state ts k
        ∙ ground (arith, λ (h : writes k stamped ≡ true). inv.claimed i k lt (writes-claims k h))

    pub state_other :
        (ts k : ℕ)
        → π.claims k w ≡ 0
        → state_at first (insert stamped s.history) ts k ≡ state_at first s.history ts k
    state_other ts k f = history_state ts k ∙ ground (arith, f, writes-claims k)

    abbrev pub after_log : View π
    after_log = moved s i w' s.cells (insert stamped s.history)

    covered : (k ts : ℕ) → IsCovered π n s k ts → IsCovered π n after_log k ts
    covered =
        IsCovered-later inv i lt w' s.cells (insert stamped s.history) (λ k. omega arith)
          (λ k h. absurd (omega (arith, h, d.was_none k)))

    pends : (k : ℕ) → 1 ≤ count k c.writes → IsCovered π n after_log k (π.ts w)
    pends k h = inr (
      i,
      lt,
      rw (==_refl i) (omega (arith, h, d.now_pending k)),
      rw (==_refl i) (omega (arith, d.same_ts)),
    )

    was_quiet :
        (k : ℕ)
        → sum_of (π.pending k) n (assign s.workers i w') ≡ 0
        → (sum_of (π.pending k) n s.workers ≡ 0) × (count k c.writes ≡ 0)
    was_quiet k quiet =
        let e = sum_of-assign (π.pending k) n s.workers i w' lt in
        (
          omega (arith, quiet, d.was_none k, e),
          omega (arith, quiet, d.was_none k, e, d.now_pending k),
        )

    pub log_step : Inv π n first (suc m) after_log
    log_step = Keeps-Inv inv i lt w' s.cells (insert stamped s.history) (record {
      locks = λ k. omega (arith, d.same_held k);
      range = inv.range;
      table_ts = λ k. omega (arith, inv.table_ts k);
      commit_ts = omega (arith, inv.commit_ts i lt, d.same_ts);
      history_ts =
          insert-IsBefore stamped s.history (suc m) (omega (arith, inv.commit_ts i lt))
            (IsBefore-later s.history m (suc m) (omega arith) inv.history_ts);
      sorted = insert-IsSorted stamped s.history inv.sorted;
      serial = insert-IsSerial first stamped s.history inv.sorted inv.serial d.reads (
          All-map _ _
            (λ e r. All-map _ _ (λ x f hit. covered_before x.key e.ts hit f) e.commit.reads r)
            s.history inv.readers);
      readers =
          All-insert _ stamped s.history
            (All-map _ _ (λ x l. elim l [ inl below ↦ inl below | inr mine ↦ pends x.key mine ])
              c.reads d.lasting)
            (readers_later inv i lt w' s.cells (insert stamped s.history) covered);
      writers =
          All-insert _ stamped s.history (λ k hit. pends k (contains-count k c.writes hit))
            (writers_later inv i lt w' s.cells (insert stamped s.history) covered);
      frozen = λ k h l. refl;
      claimed =
          λ k h. omega (arith, d.same_ts, inv.claimed i k lt (omega (arith, h, d.same_claims k)));
      others = λ k ts h l. state_other ts k (omega (arith, h, π.claims-le-held k w));
      current = λ k ts quiet le.
          history_state ts k
          ∙ ground (arith, was_quiet k quiet, contains-count k c.writes)
          ∙ inv.current k ts (was_quiet k quiet).0 le;
      fresh = λ k ts h le.
          history_state ts k
          ∙ ground (arith, le, h, d.same_ts, d.now_pending k, not-contains-count k c.writes)
          ∙ sym d.payload;
    })
