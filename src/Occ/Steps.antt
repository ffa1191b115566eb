-- ===== src/Occ/Steps.antt =====
-- Every step of the workers of occ/occ.cc, phase by phase, keeps the invariant.
use ccbench.Common.{
  ℕ, suc, ◌+◌, ◌^◌, ◌≤◌, ◌<◌, ◌≡◌, ◌≢◌, refl, sym, ap, subst, ◌∙◌, inl, Bool, true, false, List, [],
  ◌∷◌, All, Option, none, some, length, arith,
}
use ccbench.Common.Int.{ℤ}
use mathlib.Core.Path.{subst₂}
use ccbench.Common.Family.{sum_of-eq-zero}
use ccbench.Rwlock
use ccbench.Rwlock.{RwLock, Outcome, again, done, w_lock, w_unlock}
use ccbench.Rwlock.Agreement.{Agrees, IfTaken, w_lock-Agrees, w_unlock-Agrees}
use ccbench.Procedure.{Payload, Procedure}
use ccbench.Serial.{SetElement, Commit, Db, nothing}
use ccbench.Occ.Operations.{
  TxnExecutor, read_key, write_key, Shared, validation_phase, begin, clear_sets, execute, store,
}
use ccbench.Occ.Workers.{
  Phase, idle, running, waiting, validating, storing, leaving, faulted, Worker, Progress, System,
  advance, append_log, proceed, start, Step, starts, runs, init, Reach, here, next, after_turn,
  after_validation, unlogged,
}
use ccbench.Occ.Invariant.{owns, is_storing, pending, IsSettled, Inv}
use ccbench.Occ.History.{IsObserved}
use ccbench.Occ.Reading.{execute-IsReading}
use ccbench.Occ.Refinement.{quiet_step, commit_step}
use ccbench.Occ.Publishing.{publish_step, store_step}

w_lock-sure : (l : RwLock) (e : ℤ) → (w_lock l e).outcome ≢ done false
unfolding w_lock
w_lock-sure l e h = ground arith

execute_val :
    (s : Shared) (x : TxnExecutor) (p : Procedure) → (execute s x p).write_val ≡ x.write_val
unfolding execute read_key write_key
execute_val s x p = ground arith

module _ {n : ℕ} {first : Db} {s : System} {db : Db} (threshold : ℕ) (inv : Inv n first s db)
    (small : length s.log < 2 ^ 31) where
  module _ (i : ℕ) (lt : i < n) where
    abbrev w : Worker
    w = s.workers i

    abbrev Result : Progress → Type 0
    Result p = (db' : Db) × Inv n first (advance s i p) db'

    IsSettled-as : (ph : Phase) → w.phase ≡ ph → IsSettled ph db s.log s.shared.tx_id w.tx
    IsSettled-as ph e =
        subst (λ (p : Phase). IsSettled p db s.log s.shared.tx_id w.tx) e (inv.settled i lt)

    owns_as : (ph : Phase) → w.phase ≡ ph → owns w ≡ owns (record w { phase = ph })
    owns_as ph e = ap (λ (p : Phase). owns (record w { phase = p })) e

    storing_as : (ph : Phase) → w.phase ≡ ph → is_storing w ≡ is_storing (record w { phase = ph })
    storing_as ph e = ap (λ (p : Phase). is_storing (record w { phase = p })) e

    -- A step that leaves `global_lock` alone.
    still :
        (ph : Phase) (w' : Worker)
        → w.phase ≡ ph
        → owns w' ≡ owns (record w { phase = ph })
        → is_storing w' ≡ is_storing (record w { phase = ph })
        → pending w'.phase ≡ pending ph
        → w'.tx.write_val ≡ w.tx.write_val
        → IsSettled w'.phase db s.log s.shared.tx_id w'.tx
        → Result (unlogged s.shared w')
    still ph w' e own same pend val settled = (
      db,
      quiet_step inv i lt s.shared.global_lock w'
          (λ v. subst (λ (o : ℕ). Agrees s.shared.global_lock 0 (o + v)) (owns_as ph e ∙ sym own))
          (same ∙ sym (storing_as ph e)) (pend ∙ ap pending (sym e)) val settled,
    )

    turn :
        (l : RwLock) (o : Outcome) (v : ℕ)
        → IfTaken o (Agrees l 0 (suc v) × (v ≡ 0) × Path ℕ 0 0) (l ≡ s.shared.global_lock)
        → Agrees s.shared.global_lock 0 v
        → (o ≢ done false)
        → Agrees l 0 (owns (record w { phase = after_turn o }) + v)
    turn l (done true) v h a sure = subst (λ (x : ℕ). Agrees l 0 x) (omega arith) h.0
    turn l (done false) v h a sure = absurd (sure refl)
    turn l (again x) v h a sure =
        subst₂ (λ (m : RwLock) (x : ℕ). Agrees m 0 x) (sym h) (omega arith) a

    waits :
        (e : ℤ)
        → w.phase ≡ waiting (again e)
        → Result (proceed threshold n i (waiting (again e)) s.shared w)
    unfolding proceed
    waits e h = (
      db,
      quiet_step inv i lt (w_lock s.shared.global_lock e).lock (record w { phase = after_turn o })
          (λ v a.
            turn _ o v (w_lock-Agrees s.shared.global_lock e (free v a)) (free v a)
              (w_lock-sure s.shared.global_lock e))
          (turn_storing o ∙ sym (storing_as (waiting (again e)) h))
          (turn_pending o ∙ sym (ap pending h)) refl (reads o),
    )
      where
        o : Outcome
        o = (w_lock s.shared.global_lock e).outcome

        free :
            (v : ℕ) → Agrees s.shared.global_lock 0 (owns w + v) → Agrees s.shared.global_lock 0 v
        free v =
            subst (λ (x : ℕ). Agrees s.shared.global_lock 0 x)
              (omega (arith, owns_as (waiting (again e)) h))

        turn_storing : (o : Outcome) → is_storing (record w { phase = after_turn o }) ≡ 0
        turn_storing (done b) = refl
        turn_storing (again x) = refl

        turn_pending : (o : Outcome) → pending (after_turn o) ≡ []
        turn_pending (done b) = refl
        turn_pending (again x) = refl

        reads : (o : Outcome) → IsSettled (after_turn o) db s.log s.shared.tx_id w.tx
        reads (done b) = IsSettled-as (waiting (again e)) h
        reads (again x) = IsSettled-as (waiting (again e)) h

    validation :
        (o : Option Bool)
        → validation_phase s.shared w.tx ≡ o
        → w.phase ≡ validating
        → Result (after_validation o s.shared w)
    unfolding clear_sets
    validation none v e = still validating _ e refl refl refl refl tt
    validation (some true) v e = (_, commit_step inv i lt e _ refl v)
    validation (some false) v e = still validating _ e refl refl refl refl (refl, refl)

    owned :
        (b : Bool)
        → w.phase ≡ leaving b
        → (v : ℕ) → Agrees s.shared.global_lock 0 (owns w + v)
        → Agrees s.shared.global_lock 0 (suc v)
    owned b e v =
        subst (λ (x : ℕ). Agrees s.shared.global_lock 0 x) (omega (arith, owns_as (leaving b) e))

    unlock :
        (b : Bool) (commits : ℕ)
        → w.phase ≡ leaving b
        → Result (
            unlogged
              (record s.shared { global_lock = w_unlock s.shared.global_lock })
              (record w { phase = idle; local_commit_counts = commits }))
    unlock b commits e = (
      db,
      quiet_step inv i lt (w_unlock s.shared.global_lock) _
          (λ v a.
            subst (λ (x : ℕ). Agrees (w_unlock s.shared.global_lock) 0 x) (omega arith)
              (w_unlock-Agrees s.shared.global_lock (owned b e v a)))
          (sym (storing_as (leaving b) e)) (sym (ap pending e)) refl (IsSettled-as (leaving b) e),
    )

    proceed-Inv : (ph : Phase) → w.phase ≡ ph → Result (proceed threshold n i ph s.shared w)
    unfolding proceed store
    proceed-Inv idle e = still idle _ e refl refl refl refl (IsSettled-as idle e)
    proceed-Inv (running []) e =
        still (running []) _ e refl refl refl refl (IsSettled-as (running []) e)
    proceed-Inv (running (p ∷ todo)) e =
        still (running (p ∷ todo)) _ e refl refl refl (execute_val s.shared w.tx p)
          (execute-IsReading inv w.tx p (IsSettled-as (running (p ∷ todo)) e))
    proceed-Inv (waiting (again x)) e = waits x e
    proceed-Inv (waiting (done b)) e =
        still (waiting (done b)) _ e refl refl refl refl (IsSettled-as (waiting (done b)) e)
    proceed-Inv validating e = validation (validation_phase s.shared w.tx) refl e
    proceed-Inv (storing (k ∷ rest)) e = (db, store_step inv i lt k rest e)
    proceed-Inv (storing []) e = (db, publish_step inv i lt [] e threshold refl small)
    proceed-Inv (leaving true) e = unlock true _ e
    proceed-Inv (leaving false) e = unlock false _ e
    proceed-Inv faulted e = still faulted _ e refl refl refl refl tt

pub Step-Inv :
    {threshold n : ℕ} {first : Db} {s t : System} {db : Db}
    → Step threshold n s t
    → length s.log < 2 ^ 31
    → Inv n first s db
    → (db' : Db) × Inv n first t db'
unfolding start begin
Step-Inv {threshold} {s = s} {db = db} (starts i todo lt e) small inv =
    still threshold inv small i lt idle _ e refl refl refl refl (
      subst (λ (es : List SetElement). All (IsObserved db s.log s.shared.tx_id) es)
          (sym (IsSettled-as threshold inv small i lt idle e).0) tt,
      omega arith,
    )
Step-Inv {threshold} (runs i lt) small inv = proceed-Inv threshold inv small i lt _ refl

init-Inv : (n : ℕ) (first vals : ℕ → Payload) → Inv n first (init first vals) first
unfolding init Rwlock.init
init-Inv n first vals = record {
  serial = nothing;
  lock = inl (sum_of-eq-zero owns n _ (λ i lt. refl), refl);
  ids = omega (arith, sum_of-eq-zero is_storing n (init first vals).workers (λ i lt. refl));
  window = record {
    size = ground arith;
    small = ground arith;
    word = ground arith;
    holds = λ id c lo hi f. absurd (ground arith);
  };
  settled = λ i lt. (refl, refl);
  clean = λ k quiet. refl;
  dirty = λ i k lt h. absurd (ground arith);
}

log_grows : {threshold n : ℕ} {s t : System} → Step threshold n s t → length s.log ≤ length t.log
log_grows (starts i todo lt e) = ground arith
log_grows {threshold} {n} {s} (runs i lt) =
    longer (proceed threshold n i (s.workers i).phase s.shared (s.workers i)).logged
  where
    longer : (o : Option Commit) → length s.log ≤ length (append_log o s.log)
    longer none = omega arith
    longer (some c) = ground arith

pub Reach-Inv :
    {threshold n : ℕ} {first vals : ℕ → Payload} {s : System}
    → Reach threshold n first vals s
    → length s.log < 2 ^ 31
    → (db : Db) × Inv n first s db
Reach-Inv {n = n} {first} {vals} here small = (first, init-Inv n first vals)
Reach-Inv (next r st) small =
    let before : length _ < 2 ^ 31 = omega (arith, log_grows st) in
    Step-Inv st before (Reach-Inv r before).1
