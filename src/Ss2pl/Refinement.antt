-- ===== src/Ss2pl/Refinement.antt =====
-- Every step of the workers of ss2pl/ keeps the invariant of `Serial`.
use ccbench.Common.{
  ℕ, ◌+◌, ◌-◌, ◌≤◌, ◌<◌, ◌≡◌, ◌≢◌, refl, sym, ap, subst, ◌∙◌, inl, inr, false, ◌==◌, List, Option,
  none, some, count, All, All-map, arith, Bool-cases, ==_iff,
}
use ccbench.Common.Family.{assign, sum_of, sum_of-assign, le-sum_of, pair-le-sum_of, sum_of-eq-zero}
use ccbench.Common.Int.{pos}
use ccbench.Rwlock
use ccbench.Rwlock.Agreement.{Agrees}
use ccbench.Ss2pl.Types.{Payload, Table, SetElement}
use ccbench.Ss2pl.Effects.{IsCurrent}
use ccbench.Ss2pl.Workers.{
  Phase, idle, running, storing, unlocking, Worker, Commit, Progress, proceed, start, System,
  append_log, Step, starts, runs, init, Reach, here, next,
}
use ccbench.Ss2pl.Progress.{
  held_reads, held_writes, reads_on, writes_on, pending, pending_on, IsSettled, Moves, Commits,
  Logs, Advances, proceed-Advances, start-Advances,
}
use ccbench.Ss2pl.Serial.{Db, apply, apply-written, apply-kept, nothing, then_commit, Inv}
use mathlib.Core.Path.{subst₂}

pending-held :
    (k : ℕ) (ph : Phase) (t : Table) (w : Worker)
    → IsSettled ph t w
    → count k (pending ph) ≤ count k (held_writes ph w.tx)
pending-held k idle t w h = omega arith
pending-held k (running todo) t w h = omega arith
pending-held k (storing rest) t w h = h k
pending-held k (unlocking reads writes) t w h = omega arith

-- What `IsSettled` says is kept where the payloads under the worker's locks are kept.
IsSettled-frame :
    (ph : Phase) (t t' : Table) (w : Worker)
    → ((k : ℕ)
        → 1 ≤ count k (held_reads ph w.tx) + count k (held_writes ph w.tx)
        → (t' k).val ≡ (t k).val)
    → IsSettled ph t w
    → IsSettled ph t' w
IsSettled-frame idle t t' w f h = h
IsSettled-frame (running todo) t t' w f (m, reads, seen) = (m, keep _ reads, keep _ seen)
  where
    keep : (es : List SetElement) → All (IsCurrent t w.tx) es → All (IsCurrent t' w.tx) es
    keep es = All-map _ _ (λ e c. (c.0, f e.key c.0 ∙ c.1)) es
IsSettled-frame (storing rest) t t' w f h = h
IsSettled-frame (unlocking reads writes) t t' w f h = tt

module _ {n : ℕ} {first : Db} {s : System} {db : Db} (inv : Inv n first s db) where
  open inv use {locks, settled}

  -- A write lock is exclusive.
  pub exclusive :
      (i j k : ℕ)
      → i < n
      → j < n
      → i ≢ j
      → 1 ≤ writes_on k (s.workers i)
      → (reads_on k (s.workers j) ≡ 0) × (writes_on k (s.workers j) ≡ 0)
  exclusive i j k hi hj ne h = ground (
    arith,
    locks k,
    pair-le-sum_of (writes_on k) n s.workers i j hi hj ne,
    le-sum_of (reads_on k) n s.workers j hj,
    le-sum_of (writes_on k) n s.workers i hi,
  )

abbrev after_log : Option Commit → Db → Db
after_log none db = db
after_log (some c) db = apply c db

-- A worker `i` advances from its phase to `p`.
module _ {n : ℕ} {first : Db} {s : System} {db : Db} (inv : Inv n first s db) (i : ℕ) (lt : i < n)
    (p : Progress) (adv : Advances (s.workers i).phase s.table (s.workers i) p) where
  abbrev w : Worker
  w = s.workers i

  abbrev workers' : ℕ → Worker
  workers' = assign s.workers i p.worker

  next_locks :
      (k : ℕ)
      → Agrees (p.table k).lock (sum_of (reads_on k) n workers') (sum_of (writes_on k) n workers')
  next_locks k =
      subst₂ (Agrees (p.table k).lock)
        (omega (
          arith,
          sum_of-assign (reads_on k) n s.workers i p.worker,
          le-sum_of (reads_on k) n s.workers i,
        ))
        (omega (
          arith,
          sum_of-assign (writes_on k) n s.workers i p.worker,
          le-sum_of (writes_on k) n s.workers i,
        ))
        (adv.locks k (sum_of (reads_on k) n s.workers - reads_on k w)
          (sum_of (writes_on k) n s.workers - writes_on k w)
          (subst₂ (Agrees (s.table k).lock) (omega (arith, le-sum_of (reads_on k) n s.workers i))
            (omega (arith, le-sum_of (writes_on k) n s.workers i)) (inv.locks k)))

  next-IsSettled : (j : ℕ) → j < n → IsSettled (workers' j).phase p.table (workers' j)
  next-IsSettled j hj = elim (Bool-cases (i == j)) [
    | inl same ↦ rw same adv.settled
    | inr other ↦
        rw other (IsSettled-frame _ s.table p.table (s.workers j) (kept other) (inv.settled j hj))
  ]
    where
      kept :
          (i == j) ≡ false
          → (k : ℕ) → 1 ≤ reads_on k (s.workers j) + writes_on k (s.workers j)
          → (p.table k).val ≡ (s.table k).val
      kept other k held = elim (adv.vals k) [
        | inl same ↦ same
        | inr wrote ↦ absurd (omega (arith, exclusive inv i j k lt hj (ground arith) wrote))
      ]

  -- No write of another worker is pending in a tuple that this one has locked.
  not_pending :
      (j k : ℕ)
      → j < n
      → (i == j) ≡ false
      → 1 ≤ reads_on k w + writes_on k w
      → pending_on k (s.workers j) ≡ 0
  not_pending j k hj other held = ground (
    arith,
    exclusive inv j i k hj lt (ground arith),
    pending-held k (s.workers j).phase s.table (s.workers j) (inv.settled j hj),
  )

  abbrev IsQuiet : (ℕ → Worker) → ℕ → Type 0
  IsQuiet f k = (j : ℕ) → j < n → pending_on k (f j) ≡ 0

  own_quiet : (k : ℕ) → IsQuiet workers' k → pending_on k p.worker ≡ 0
  own_quiet k quiet = ground (arith, quiet i lt)

  -- If nothing was pending before in the worker itself, the tuple was quiet before.
  was-IsQuiet : (k : ℕ) → IsQuiet workers' k → pending_on k w ≡ 0 → IsQuiet s.workers k
  was-IsQuiet k quiet own j hj = elim (Bool-cases (i == j)) [
    | inl same ↦ subst (λ (x : ℕ). pending_on k (s.workers x) ≡ 0) ((==_iff i j).0 same) own
    | inr other ↦ rw other at (quiet j hj)
  ]

  locked-IsQuiet :
      (k : ℕ) → pending_on k w ≡ 0 → 1 ≤ reads_on k w + writes_on k w → IsQuiet s.workers k
  locked-IsQuiet k own held j hj = elim (Bool-cases (i == j)) [
    | inl same ↦ subst (λ (x : ℕ). pending_on k (s.workers x) ≡ 0) ((==_iff i j).0 same) own
    | inr other ↦ not_pending j k hj other held
  ]

  silent_clean :
      (k : ℕ)
      → Moves w.phase s.table w p.table p.worker k
      → IsQuiet workers' k
      → db k ≡ (p.table k).val
  silent_clean k (inl (pend, same)) quiet =
      inv.clean k (was-IsQuiet k quiet (sym pend ∙ own_quiet k quiet)) ∙ sym same
  silent_clean k (inr (was, _, wrote)) quiet = inv.dirty i k lt was ∙ sym wrote

  silent_dirty :
      (k : ℕ)
      → Moves w.phase s.table w p.table p.worker k
      → (j : ℕ) → j < n
      → 1 ≤ pending_on k (workers' j)
      → db k ≡ (workers' j).tx.write_val
  silent_dirty k moves j hj = elim (Bool-cases (i == j)) [
    | inl same ↦ rw same (λ h. inv.dirty i k lt (ground (arith, moves)) ∙ sym adv.same_val)
    | inr other ↦ rw other (inv.dirty j k hj)
  ]

  module _ (c : Commit) (commits : Commits w.phase s.table w p c) where
    open commits use {current, locked, same, pends, val, none_before, own_reads, own_writes}

    own_none : (k : ℕ) → pending_on k w ≡ 0
    own_none k = ap (count k) none_before

    reads_found :
        (es : List SetElement)
        → All (IsCurrent s.table w.tx) es
        → All (λ (e : SetElement). db e.key ≡ e.val) es
    reads_found = All-map _ _ λ e x.
        inv.clean e.key (
          locked-IsQuiet e.key (own_none e.key)
            (omega (arith, x.0, ap (count e.key) own_reads, ap (count e.key) own_writes)))
        ∙ x.1

    commit_clean : (k : ℕ) → IsQuiet workers' k → apply c db k ≡ (p.table k).val
    commit_clean k quiet =
        apply-kept c db k (sym (ap (count k) pends) ∙ own_quiet k quiet)
        ∙ inv.clean k (was-IsQuiet k quiet (own_none k))
        ∙ ap (λ (t : Table). (t k).val) (sym same)

    commit_dirty :
        (j k : ℕ) → j < n → 1 ≤ pending_on k (workers' j) → apply c db k ≡ (workers' j).tx.write_val
    commit_dirty j k hj = elim (Bool-cases (i == j)) [
      | inl mine ↦ rw mine (λ h.
          apply-written c db k (omega (arith, h, ap (count k) pends)) ∙ val ∙ sym adv.same_val)
      | inr other ↦ rw other (λ h. apply-kept c db k (unwritten other h) ∙ inv.dirty j k hj h)
    ]
      where
        unwritten : (i == j) ≡ false → 1 ≤ pending_on k (s.workers j) → count k c.writes ≡ 0
        unwritten other h =
            let none_held : ¬ (1 ≤ reads_on k w + writes_on k w) =
              λ held. absurd (omega (arith, not_pending j k hj other held)) in
            omega (arith, none_held, locked k, ap (count k) own_writes)

  next-Inv :
      (o : Option Commit)
      → Logs o w.phase s.table w p
      → Inv n first
          (record { table = p.table; workers = workers'; log = append_log o s.log })
          (after_log o db)
  next-Inv none moves = record {
    serial = inv.serial;
    locks = next_locks;
    settled = next-IsSettled;
    clean = λ k quiet. silent_clean k (moves k) quiet;
    dirty = λ j k hj h. silent_dirty k (moves k) j hj h;
  }
  next-Inv (some c) commits = record {
    serial = then_commit c inv.serial (reads_found c commits c.reads commits.current);
    locks = next_locks;
    settled = next-IsSettled;
    clean = commit_clean c commits;
    dirty = commit_dirty c commits;
  }

-- Every step of any worker keeps the invariant; a commit takes the specification one transaction on.
pub Step-Inv :
    {n : ℕ} {first : Db} {s t : System} {db : Db}
    → Step n s t
    → Inv n first s db
    → (db' : Db) × Inv n first t db'
Step-Inv {s = s} {db = db} (starts i todo lt e) inv =
    let w = s.workers i in
    let settled = subst (λ (ph : Phase). IsSettled ph s.table w) e (inv.settled i lt) in
    let adv = start-Advances s.table w todo settled in
    let p : Progress = record { table = s.table; worker = start w todo; logged = none } in
    let adv' = subst (λ (ph : Phase). Advances ph s.table w p) (sym e) adv in
    (db, next-Inv inv i lt p adv' none adv'.logs)
Step-Inv {s = s} (runs i lt) inv =
    let w = s.workers i in
    let p = proceed w.phase s.table w in
    let adv = proceed-Advances w.phase s.table w (inv.settled i lt) in
    (_, next-Inv inv i lt p adv p.logged adv.logs)

init-Inv : (n : ℕ) (first vals : ℕ → Payload) → Inv n first (init first vals) first
unfolding init Rwlock.init
init-Inv n first vals = record {
  serial = nothing;
  locks = λ k. inl (
    sum_of-eq-zero (writes_on k) n _ (λ i lt. refl),
    ap pos (sym (sum_of-eq-zero (reads_on k) n _ (λ i lt. refl))),
  );
  settled = λ i lt. (refl, refl, refl, refl);
  clean = λ k quiet. refl;
  dirty = λ i k lt h. absurd (omega arith);
}

pub Reach-Inv :
    {n : ℕ} {first vals : ℕ → Payload} {s : System}
    → Reach n first vals s
    → (db : Db) × Inv n first s db
Reach-Inv {n} {first} {vals} here = (first, init-Inv n first vals)
Reach-Inv (next r st) = Step-Inv st (Reach-Inv r).1
