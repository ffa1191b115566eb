-- ===== src/Si/Reading.antt =====
-- The steps of si/ that change nothing that others see: a worker that has found what the invariant says
-- finds it again after the step.
use ccbench.Common.{
  ℕ, ◌+◌, ◌^◌, ◌≤◌, ◌<◌, ◌≡◌, inl, inr, refl, Bool, true, false, ◌||◌, ltb, leb, if_cases, if_both,
  List, [], ◌∷◌, ◌++◌, Option, none, some, All-append, not-contains-count, count, arith,
}
use ccbench.Procedure.{Procedure, Ope, read, write, read_modify_write}
use ccbench.Si.Types.{Shared, TxExecutor, search_read_set, search_write_set, keys, version}
use ccbench.Si.Workers.{
  Phase, searching, copying, writing, climbing, testing, Worker, Progress, is_committed, begins,
  after_read, tread, steps_back, views, copies, twrite, fails, conflicts, climbs, tests,
  starts_operation,
}
use ccbench.Si.Invariant.{IsCommitted, IsOrdered, IsSeen, IsActive, IsIdle, IsSettled}

abbrev pub WorkerSettled : Shared → ℕ → Worker → Type 0
WorkerSettled g i w = IsSettled g i w.phase w.tx

abbrev pub Settles : Shared → ℕ → Progress → Type 0
Settles g i p = WorkerSettled g i p.worker

module _ (g : Shared) (i : ℕ) (w : Worker)
    (tuples : (k : ℕ) → IsOrdered g.allocated g.cctr (g.table k)) where
  pub begins-Settles :
      (n j : ℕ) (todo : List Procedure)
      → g.lastcstamp j ≤ g.cctr
      → g.cctr + 1 < 2 ^ 32
      → IsIdle g w.tx × (w.tx.txid ≤ g.cctr)
      → Settles g i (begins n j todo g w)
  begins-Settles n j todo last room (h, t) =
      if_cases (Settles g i) (ltb j n) _ _ (λ e. (h, ground arith))
        (λ e. record {
          written = record { owned = rw h.1 tt; once = λ k. rw h.1 (omega arith) };
          seen = rw h.0 tt;
          txid = omega (arith, t, room);
          cstamp = h.2;
        })

  after_read-Settled :
      (x : TxExecutor) (key : ℕ) (b : Bool) (todo : List Procedure)
      → IsActive g i x
      → WorkerSettled g i (after_read (record w { tx = x }) key b todo)
  after_read-Settled x key true todo h = h
  after_read-Settled x key false todo h = h

  tread-Settled :
      (key : ℕ) (b : Bool) (todo : List Procedure)
      → IsActive g i w.tx
      → WorkerSettled g i (tread g w key b todo)
  tread-Settled key b todo h =
      if_cases (WorkerSettled g i) (search_write_set w.tx key || search_read_set w.tx key) _ _
        (λ e. after_read-Settled w.tx key b todo h) (λ e. (h, (tuples key).latest))

  pub starts_operation-Settled :
      (p : Procedure) (todo : List Procedure)
      → IsActive g i w.tx
      → WorkerSettled g i (starts_operation g w p todo)
  starts_operation-Settled p todo h = go p.ope
    where
      go :
          (o : Ope)
          → WorkerSettled g i (elim o [
            | read ↦ tread g w p.key false todo
            | write ↦ record w { phase = writing p.key todo }
            | read_modify_write ↦ tread g w p.key true todo
          ])
      go read = tread-Settled p.key false todo h
      go write = h
      go read_modify_write = tread-Settled p.key true todo h

  -- A version that links to none is committed and has the timestamp 0.
  steps_back-Settled :
      (key v : ℕ) (ph : ℕ → Phase)
      → (((version g key v).committed_prev ≡ none) → ⊥)
      → ((p : ℕ) → (version g key v).committed_prev ≡ some p → IsSettled g i (ph p) w.tx)
      → IsSettled g i (steps_back (version g key v).committed_prev ph) w.tx
  steps_back-Settled key v ph linked found = go (version g key v).committed_prev linked found
    where
      go :
          (q : Option ℕ)
          → (q ≡ none → ⊥)
          → ((p : ℕ) → q ≡ some p → IsSettled g i (ph p) w.tx)
          → IsSettled g i (steps_back q ph) w.tx
      go none l f = l refl
      go (some p) l f = f p refl

  pub loaded-Settled :
      (key : ℕ) (b : Bool) (todo : List Procedure) (v : ℕ)
      → IsActive g i w.tx
      → is_committed (version g key v).status ≡ false
      → IsSettled g i (steps_back (version g key v).committed_prev (searching key b todo)) w.tx
  loaded-Settled key b todo v h undecided =
      steps_back-Settled key v (searching key b todo)
        (λ e. ground (arith, undecided, (tuples key).first v e))
        (λ p e. (h, ((tuples key).linked v p e).1))

  pub views-Settled :
      (key : ℕ) (b : Bool) (todo : List Procedure) (v : ℕ)
      → IsActive g i w.tx
      → IsCommitted (version g key v)
      → IsSettled g i (views g w key b todo v) w.tx
  views-Settled key b todo v h done =
      if_cases (λ (ph : Phase). IsSettled g i ph w.tx) (ltb w.tx.txid (version g key v).cstamp) _ _
        (λ later.
          steps_back-Settled key v (searching key b todo)
            (λ e. ground (arith, later, (tuples key).first v e))
            (λ p e. (h, ((tuples key).linked v p e).1)))
        (λ seen. (h, done, ground (arith, seen)))

  pub copies-Settled :
      (key : ℕ) (b : Bool) (todo : List Procedure) (v : ℕ)
      → IsSettled g i (copying key b todo v) w.tx
      → WorkerSettled g i (copies g w key b todo v)
  copies-Settled key b todo v (h, done, le) =
      after_read-Settled
        (record w.tx {
          read_set = w.tx.read_set ++ record { key = key; ver = v } ∷ [];
          return_val = (version g key v).val;
        })
        key b todo
        (record {
          written = h.written;
          seen = All-append (IsSeen g w.tx.txid) w.tx.read_set _ h.seen ((done, le), tt);
          txid = h.txid;
          cstamp = h.cstamp;
        })

  pub twrite-Settled :
      (key : ℕ) (todo : List Procedure)
      → IsActive g i w.tx
      → IsSettled g i (twrite g w key todo) w.tx
  unfolding search_write_set
  twrite-Settled key todo h =
      if_cases (λ (ph : Phase). IsSettled g i ph w.tx) (search_write_set w.tx key) _ _ (λ e. h)
        (λ e. (h, not-contains-count key (keys w.tx.write_set) e, (tuples key).latest))

  fails-Settles : IsActive g i w.tx → Settles g i (fails g w)
  fails-Settles h = (h.written, h.cstamp, h.seen)

  pub conflicts-Settles :
      (key : ℕ) (todo : List Procedure) (e : ℕ)
      → IsActive g i w.tx
      → count key (keys w.tx.write_set) ≡ 0
      → Settles g i (conflicts g w key todo e)
  conflicts-Settles key todo e h z =
      if_both (Settles g i) (leb w.tx.txid (version g key e).cstamp) _ _ (fails-Settles h)
        (h, z, (tuples key).latest)

  -- The loop for `vertmp` reaches the newest version that is committed, in two rounds at most.
  pub climbs-Settled :
      (key : ℕ) (todo : List Procedure) (e v : ℕ)
      → IsSettled g i (climbing key todo e v) w.tx
      → IsSettled g i (climbs g key todo e v) w.tx
  climbs-Settled key todo e v (h, z, lt, settled, inl same) =
      if_cases (λ (ph : Phase). IsSettled g i ph w.tx) (is_committed (version g key v).status) _ _
        (λ done. (
          h,
          record {
            unwritten = z;
            expected = lt;
            settled = settled;
            top = inl (ground (arith, done, same), same);
            committed = done;
          },
        ))
        (λ undecided.
          steps_back-Settled key v (climbing key todo e)
            (λ none_left. ground (arith, undecided, (tuples key).first v none_left))
            (λ p link. (
              h,
              z,
              lt,
              settled,
              inr (record {
                unwritten = z;
                expected = lt;
                settled = settled;
                top = inr (ground (arith, undecided, same), ground (arith, link, same));
                committed = ((tuples key).linked v p link).1;
              }),
            )))
  climbs-Settled key todo e v (h, z, lt, settled, inr found) = rw (found.committed) (h, found)

  pub tests-Settles :
      (key : ℕ) (todo : List Procedure) (e v : ℕ)
      → IsSettled g i (testing key todo e v) w.tx
      → Settles g i (tests g w key todo e v)
  tests-Settles key todo e v (h, found) =
      if_cases (Settles g i) (ltb w.tx.txid (version g key v).cstamp) _ _ (λ later. fails-Settles h)
        (λ seen. (h, found, ground (arith, seen)))
