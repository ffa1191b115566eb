-- ===== src/LockManager/Alone.antt =====
-- A round of `worker` of lock-manager/ss2pl.cc for a transaction whose tuples nobody waits for or holds.
use ccbench.Common.{
  ℕ, suc, ◌≤◌, ◌≡◌, refl, ap, ◌∙◌, true, ==_refl, if◌then◌else◌, List, [], ◌++◌, count, contains,
  not-contains-count, contains-count, some, arith,
}
use ccbench.Common.Int.{pos}
use ccbench.LockManager.Types.{Task, Table, Transaction, State, keys}
use ccbench.LockManager.Operations.{
  is_head, lockmanager_regist, check_waitlist, execute, commit, unlock_reads, run_tasks,
  run_transaction,
}
use ccbench.LockManager.Register.{
  any_task, reads_key, writes_key, accesses, Registered, lockmanager_regist-Registered,
}
use ccbench.LockManager.Acquire.{read_keys, write_keys, IsReady, Taken}
use ccbench.LockManager.Waitlist.{check_waitlist-Taken, without_future}
use ccbench.LockManager.Release.{
  execute_lem, unlock_reads_lem, unlock_writes_lem, contains-read_keys, contains-write_keys,
  count-read_keys, count-write_keys,
}

-- Nothing is left of an earlier transaction.
pub record IsClear (x : Transaction) : Type 0 where
  pub future_lock : x.future_lock ≡ []
  pub r_lock_list : x.r_lock_list ≡ []
  pub w_lock_list : x.w_lock_list ≡ []

abbrev pub AreFree : Table → List Task → Type 0
AreFree t tasks =
    (k : ℕ) → accesses k tasks ≡ true → ((t k).wait_list ≡ []) × ((t k).lock.counter ≡ pos 0)

module _ (s : State) (tx_id fuel : ℕ) (tasks : List Task) (clear : IsClear s.tx)
    (free : AreFree s.table tasks) where
  abbrev given : State
  given = record s { tx = record s.tx { task_set = tasks } }

  abbrev registered : State
  registered = lockmanager_regist given tx_id

  reg : Registered given tx_id tasks registered
  reg = lockmanager_regist-Registered given tx_id clear.future_lock

  abbrev future : List Task
  future = registered.tx.future_lock

  ready : IsReady registered tx_id future
  unfolding is_head
  ready = record {
    once = λ k. ground (arith, reg.future_count k);
    no_sleep = λ k. ground (
      arith,
      reg.future_count k,
      reg.future_reads k,
      reg.future_writes k,
      contains-count k (keys future),
      not-contains-count k (keys future),
    );
    heads = λ k h. ground (
      arith,
      h,
      reg.future_count k,
      contains-count k (keys future),
      reg.wait_lists k,
      free k,
      ==_refl tx_id,
    );
    r_free = λ k h. ground (arith, h, reg.future_reads k, reg.locks k, free k);
    w_free = λ k h. ground (arith, h, reg.future_writes k, reg.locks k, free k);
  }

  locked :
      (l : State) × (check_waitlist (suc fuel) registered tx_id ≡ some l)
      × (l.tx.future_lock ≡ [])
      × Taken (without_future registered) future l
  locked = check_waitlist-Taken registered tx_id fuel ready

  abbrev held : State
  held = locked.0

  abbrev ran : State
  ran = execute held tasks

  lists : (ran.tx.r_lock_list ≡ read_keys future) × (ran.tx.w_lock_list ≡ write_keys future)
  lists =
      let e = (execute_lem held tasks).3 in
      let t = locked.3.tx_lists in
      (
        ap (λ (x : Transaction). x.r_lock_list) e
            ∙ ap (λ (x : Transaction). x.r_lock_list) t
            ∙ ap (λ (ks : List ℕ). ks ++ read_keys future)
                (ap (λ (x : Transaction). x.r_lock_list) reg.others ∙ clear.r_lock_list),
        ap (λ (x : Transaction). x.w_lock_list) e
            ∙ ap (λ (x : Transaction). x.w_lock_list) t
            ∙ ap (λ (ks : List ℕ). ks ++ write_keys future)
                (ap (λ (x : Transaction). x.w_lock_list) reg.others ∙ clear.w_lock_list),
      )

  abbrev unlocked : Table
  unlocked = unlock_reads ran.table ran.tx.r_lock_list

  module _ (k : ℕ) where
    few_reads : count k ran.tx.r_lock_list ≤ 1
    few_reads = rw lists.0 (omega (arith, count-read_keys k future, ready.once k))

    few_writes : count k ran.tx.w_lock_list ≤ 1
    few_writes = rw lists.1 (omega (arith, count-write_keys k future, ready.once k))

    is_read_lock : contains k ran.tx.r_lock_list ≡ any_task (reads_key k) future
    is_read_lock = rw lists.0 (contains-read_keys k future)

    is_write_lock : contains k ran.tx.w_lock_list ≡ any_task (writes_key k) future
    is_write_lock = rw lists.1 (contains-write_keys k future)

    table_after :
        (((commit ran).table k).lock.counter ≡ (s.table k).lock.counter)
        × (((commit ran).table k).wait_list ≡ (s.table k).wait_list)
        × (((commit ran).table k).value
            ≡ (if any_task (writes_key k) tasks then 100 else (s.table k).value))
    unfolding commit
    table_after =
        let e = execute_lem held tasks in
        let r = unlock_reads_lem k ran.table ran.tx.r_lock_list few_reads in
        let w = unlock_writes_lem k unlocked ran.tx.w_lock_list few_writes in
        let t = locked.3 in
        (
          ground (
            arith,
            w.0,
            r.0,
            is_read_lock,
            is_write_lock,
            e.2 k,
            t.counters k,
            reg.locks k,
            reg.future_reads k,
            reg.future_writes k,
            free k,
          ),
          ground (
            arith,
            w.1,
            r.1,
            e.1 k,
            t.wait_lists k,
            reg.wait_lists k,
            ready.no_sleep k,
            reg.future_reads k,
            reg.future_writes k,
            free k,
          ),
          ground (arith, w.2, r.2, e.0 k, t.values k, reg.values k),
        )

-- A transaction whose tuples nobody waits for or holds takes its locks in one round of `check_waitlist`
-- and commits: it has stored 100 to exactly the tuples it writes, every lock and wait list is as it was
-- before, and the transaction is clear for the next round.
pub run_transaction_alone :
    (s : State) (tx_id fuel : ℕ) (tasks : List Task)
    → IsClear s.tx
    → AreFree s.table tasks
    → (s' : State) × (run_transaction (suc fuel) s tx_id tasks ≡ some s')
      × ((k : ℕ)
          → ((s'.table k).lock.counter ≡ (s.table k).lock.counter)
            × ((s'.table k).wait_list ≡ (s.table k).wait_list)
            × ((s'.table k).value
                ≡ (if any_task (writes_key k) tasks then 100 else (s.table k).value)))
      × IsClear s'.tx
unfolding run_transaction commit
run_transaction_alone s tx_id fuel tasks clear free = (
  commit (ran s tx_id fuel tasks clear free),
  ap (run_tasks tasks) (locked s tx_id fuel tasks clear free).1,
  table_after s tx_id fuel tasks clear free,
  record {
    future_lock =
        ap (λ (x : Transaction). x.future_lock)
          (execute_lem (held s tx_id fuel tasks clear free) tasks).3
        ∙ (locked s tx_id fuel tasks clear free).2;
    r_lock_list = refl;
    w_lock_list = refl;
  },
)
