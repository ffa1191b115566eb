-- ===== src/LockManager/Register.antt =====
-- `lockmanager_regist` of lock-manager/ss2pl.cc: what it leaves in `future_lock_` and in the wait lists.
use ccbench.Common.{
  ℕ, ◌+◌, ◌≤◌, ◌≡◌, refl, sym, ap, subst, ◌∙◌, Bool, true, false, ◌||◌, ◌&&◌, ◌==◌, if◌then◌else◌,
  List, [], ◌∷◌, ◌++◌, count, contains, length, length-append, not, inl, inr, arith, Bool-cases,
  contains-count, not-contains-count,
}
use mathlib.Core.List.{append_assoc, append-nil}
use ccbench.LockManager.Types.{Ope, read, write, sleep, Task, Transaction, State, keys}
use ccbench.LockManager.Operations.{
  Access, first, after_read, after_write, dup_check, wait_add, upgrade_future, regist_task,
  regist_tasks, lockmanager_regist,
}

abbrev pub any_task : (Task → Bool) → List Task → Bool
any_task p [] = false
any_task p (t ∷ ts) = p t || any_task p ts

abbrev pub is_read : Ope → Bool
is_read read = true
is_read write = false
is_read sleep = false

abbrev pub is_write : Ope → Bool
is_write read = false
is_write write = true
is_write sleep = false

abbrev pub reads_key : ℕ → Task → Bool
reads_key k t = (t.key == k) && is_read t.ope

abbrev pub writes_key : ℕ → Task → Bool
writes_key k t = (t.key == k) && is_write t.ope

abbrev pub accesses : ℕ → List Task → Bool
accesses k ts = any_task (reads_key k) ts || any_task (writes_key k) ts

pub any_task-append :
    (p : Task → Bool) (xs ys : List Task) → any_task p (xs ++ ys) ≡ (any_task p xs || any_task p ys)
any_task-append p [] ys = refl
any_task-append p (x ∷ xs) ys = ground (arith, any_task-append p xs ys)

-- The answer of `dup_check` about the tasks before the present one.
IsAnswer : Access → ℕ → List Task → Type 0
IsAnswer a k ts =
    (a ≡ first → accesses k ts ≡ false)
    × (a ≡ after_read → accesses k ts ≡ true)
    × (a ≡ after_write → any_task (writes_key k) ts ≡ true)

dup_check-IsAnswer :
    (before rest : List Task) (k : ℕ)
    → IsAnswer (dup_check (before ++ rest) k (length before)) k before
unfolding dup_check IsAnswer
dup_check-IsAnswer [] [] k = (λ _. refl, λ h. ground (arith, h), λ h. ground (arith, h))
dup_check-IsAnswer [] (x ∷ rest) k = (λ _. refl, λ h. ground (arith, h), λ h. ground (arith, h))
dup_check-IsAnswer (t ∷ before) rest k =
    let ih = dup_check-IsAnswer before rest k in
    (λ h. ground (arith, h, ih.0), λ h. ground (arith, h, ih.1), λ h. ground (arith, h, ih.2))

count-added :
    (k : ℕ) (ts : List Task) (t : Task)
    → count k (keys (ts ++ t ∷ [])) ≡ count k (keys ts) + (if t.key == k then 1 else 0)
count-added k [] t = omega arith
count-added k (x ∷ xs) t = omega (arith, count-added k xs t)

module _ (k j : ℕ) where
  keys-upgrade_future : (ts : List Task) → keys (upgrade_future ts k) ≡ keys ts
  unfolding upgrade_future
  keys-upgrade_future [] = refl
  keys-upgrade_future (t ∷ ts) = elim (Bool-cases (t.key == k)) [
    | inl e ↦ ground (arith, e)
    | inr e ↦ ground (arith, e, keys-upgrade_future ts)
  ]

  writes-upgrade_future :
      (ts : List Task)
      → any_task (writes_key j) (upgrade_future ts k)
        ≡ (any_task (writes_key j) ts || ((k == j) && contains k (keys ts)))
  unfolding upgrade_future
  writes-upgrade_future [] = ground arith
  writes-upgrade_future (t ∷ ts) = ground (arith, writes-upgrade_future ts)

  pub reads-none : (ts : List Task) → count j (keys ts) ≡ 0 → any_task (reads_key j) ts ≡ false
  reads-none [] h = refl
  reads-none (t ∷ ts) h = ground (arith, reads-none ts)

  reads-upgrade_future :
      (ts : List Task)
      → count j (keys ts) ≤ 1
      → any_task (reads_key j) (upgrade_future ts k) ≡ (any_task (reads_key j) ts && not (k == j))
  unfolding upgrade_future
  reads-upgrade_future [] h = refl
  reads-upgrade_future (t ∷ ts) h = ground (arith, reads-upgrade_future ts, reads-none ts)

-- What has been registered after the tasks `before`.
pub record Registered (s0 : State) (tx_id : ℕ) (before : List Task) (s : State) : Type 0 where
  pub future_writes :
      (k : ℕ) → any_task (writes_key k) s.tx.future_lock ≡ any_task (writes_key k) before
  pub future_reads :
      (k : ℕ)
      → any_task (reads_key k) s.tx.future_lock
        ≡ (any_task (reads_key k) before && not (any_task (writes_key k) before))
  pub future_count :
      (k : ℕ) → count k (keys s.tx.future_lock) ≡ (if accesses k before then 1 else 0)
  pub wait_lists :
      (k : ℕ)
      → (s.table k).wait_list ≡ (
          if accesses k before
          then (s0.table k).wait_list ++ tx_id ∷ []
          else (s0.table k).wait_list)
  pub locks : (k : ℕ) → (s.table k).lock ≡ (s0.table k).lock
  pub values : (k : ℕ) → (s.table k).value ≡ (s0.table k).value
  pub others : s.tx ≡ record s0.tx { future_lock = s.tx.future_lock }

module _ (s0 s : State) (tx_id : ℕ) (before rest : List Task) (item : Task)
    (set : s.tx.task_set ≡ before ++ item ∷ rest) (reg : Registered s0 tx_id before s) where
  answer : IsAnswer (dup_check s.tx.task_set item.key (length before)) item.key before
  answer = rw set (dup_check-IsAnswer before (item ∷ rest) item.key)

  added :
      (p : Task → Bool) (o : Ope)
      → any_task p (s.tx.future_lock ++ record { ope = o; key = item.key } ∷ [])
        ≡ (any_task p s.tx.future_lock || (p (record { ope = o; key = item.key }) || false))
  added p o = any_task-append p s.tx.future_lock (record { ope = o; key = item.key } ∷ [])

  counted :
      (k : ℕ) (o : Ope)
      → count k (keys (s.tx.future_lock ++ record { ope = o; key = item.key } ∷ []))
        ≡ count k (keys s.tx.future_lock) + (if item.key == k then 1 else 0)
  counted k o = count-added k s.tx.future_lock (record { ope = o; key = item.key })

  then_reads :
      (k : ℕ)
      → any_task (reads_key k) (before ++ item ∷ [])
        ≡ (any_task (reads_key k) before || (reads_key k item || false))
  then_reads k = any_task-append (reads_key k) before (item ∷ [])

  then_writes :
      (k : ℕ)
      → any_task (writes_key k) (before ++ item ∷ [])
        ≡ (any_task (writes_key k) before || (writes_key k item || false))
  then_writes k = any_task-append (writes_key k) before (item ∷ [])

  regist_task-Registered :
      Registered s0 tx_id (before ++ item ∷ []) (regist_task s tx_id (length before) item)
  unfolding regist_task wait_add IsAnswer
  regist_task-Registered = record {
    future_writes = λ k. ground (
      arith,
      answer.0,
      answer.1,
      answer.2,
      then_writes k,
      added (writes_key k) write,
      added (writes_key k) read,
      reg.future_writes k,
      writes-upgrade_future item.key k s.tx.future_lock,
      reg.future_count item.key,
      contains-count item.key (keys s.tx.future_lock),
      not-contains-count item.key (keys s.tx.future_lock),
    );
    future_reads = λ k. ground (
      arith,
      answer.0,
      answer.1,
      answer.2,
      then_writes k,
      then_reads k,
      added (reads_key k) write,
      added (reads_key k) read,
      reg.future_reads k,
      reads-upgrade_future item.key k s.tx.future_lock,
      reg.future_count k,
    );
    future_count = λ k. ground (
      arith,
      answer.0,
      answer.1,
      answer.2,
      then_writes k,
      then_reads k,
      counted k read,
      counted k write,
      reg.future_count k,
      keys-upgrade_future item.key 0 s.tx.future_lock,
    );
    wait_lists = λ k. ground (
      arith,
      answer.0,
      answer.1,
      answer.2,
      then_writes k,
      then_reads k,
      reg.wait_lists k,
      reg.wait_lists item.key,
    );
    locks = λ k. ground (arith, reg.locks k);
    values = λ k. ground (arith, reg.values k);
    others = ground (arith, reg.others);
  }

regist_tasks-Registered :
    (s0 s : State) (tx_id : ℕ) (before rest : List Task)
    → s.tx.task_set ≡ before ++ rest
    → Registered s0 tx_id before s
    → Registered s0 tx_id (before ++ rest) (regist_tasks s tx_id (length before) rest)
unfolding regist_tasks
regist_tasks-Registered s0 s tx_id before [] set reg =
    subst (λ (ts : List Task). Registered s0 tx_id ts s) (sym (append-nil before)) reg
regist_tasks-Registered s0 s tx_id before (item ∷ rest) set reg =
    let s' = regist_task s tx_id (length before) item in
    let reg' = regist_task-Registered s0 s tx_id before rest item set reg in
    let set' : s'.tx.task_set ≡ (before ++ item ∷ []) ++ rest =
      ap (λ (x : Transaction). x.task_set) reg'.others
      ∙ ap (λ (x : Transaction). x.task_set) (sym reg.others)
      ∙ set
      ∙ sym (append_assoc before (item ∷ []) rest) in
    let all = regist_tasks-Registered s0 s' tx_id (before ++ item ∷ []) rest set' reg' in
    subst
      (λ (ts : List Task). Registered s0 tx_id ts (regist_tasks s' tx_id (length before + 1) rest))
      (append_assoc before (item ∷ []) rest)
      (subst
        (λ (m : ℕ).
          Registered s0 tx_id ((before ++ item ∷ []) ++ rest) (regist_tasks s' tx_id m rest))
        (length-append before (item ∷ [])) all)

-- From an empty `future_lock_`, `lockmanager_regist` leaves there one lock for each key that the
-- transaction accesses, a write if it writes the key anywhere, has appended the id to exactly the wait
-- lists of those keys, once, and has changed nothing else.
pub lockmanager_regist-Registered :
    (s : State) (tx_id : ℕ)
    → s.tx.future_lock ≡ []
    → Registered s tx_id s.tx.task_set (lockmanager_regist s tx_id)
unfolding lockmanager_regist
lockmanager_regist-Registered s tx_id empty =
    regist_tasks-Registered s s tx_id [] s.tx.task_set refl (record {
      future_writes = λ k. rw empty refl;
      future_reads = λ k. rw empty refl;
      future_count = λ k. rw empty refl;
      wait_lists = λ k. refl;
      locks = λ k. refl;
      values = λ k. refl;
      others = refl;
    })
