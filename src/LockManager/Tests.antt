-- ===== src/LockManager/Tests.antt =====
-- The theorems about lock-manager/ss2pl.cc at concrete transactions.
use ccbench.Common.{
  ℕ, ◌≡◌, refl, ◌==◌, if◌then◌else◌, List, [], ◌∷◌, none, some, arith, true, Bool-cases, inl, inr,
  contains, ◌≤◌,
}
use ccbench.Common.Int.{pos}
use ccbench.Rwlock.{r_trylock, w_trylock}
use ccbench.LockManager.Types.{read, write, sleep, Task, Table, Transaction, State}
use ccbench.LockManager.Operations.{
  dup_check, wait_add, upgrade_future, regist_task, regist_tasks, lockmanager_regist,
  check_waitlist, run_transaction, is_head, r_try_lock, w_try_lock, check_item, check_items,
}
use ccbench.LockManager.Register.{Registered, any_task, writes_key, lockmanager_regist-Registered}
use ccbench.LockManager.Acquire.{IsReady, Taken}
use ccbench.LockManager.Waitlist.{without_future, check_waitlist-Taken}
use ccbench.LockManager.Order.{AreQueues, wait_lists_ascend}
use ccbench.LockManager.Alone.{IsClear, AreFree, run_transaction_alone}

-- Tuple 5 is read and later written, and tuple 6 written and later read.
abbrev tasks : List Task
tasks =
    record { ope = read; key = 5 }
    ∷ record { ope = write; key = 6 }
    ∷ record { ope = sleep; key = 0 }
    ∷ record { ope = write; key = 5 }
    ∷ record { ope = read; key = 6 }
    ∷ []

abbrev clear : List Task → List Task → Transaction
clear ts future = record {
  task_set = ts;
  future_lock = future;
  r_lock_list = [];
  w_lock_list = [];
  read_set = [];
  write_set = [];
}

-- Transaction 3 reads tuple 8, and 4 waits for it.
abbrev table : Table
table k = record {
  lock = record { counter = if k == 8 then pos 1 else pos 0 };
  wait_list = if k == 8 then 4 ∷ [] else [];
  value = 0;
}

abbrev start : State
start = record { table = table; tx = clear tasks [] }

start-IsClear : IsClear start.tx
start-IsClear = record { future_lock = refl; r_lock_list = refl; w_lock_list = refl }

start-AreFree : AreFree table tasks
start-AreFree k h = ground (arith, h)

regist_tasks_run :
    ((lockmanager_regist start 7).tx.future_lock
      ≡ record { ope = write; key = 5 } ∷ record { ope = write; key = 6 } ∷ [])
    × (((lockmanager_regist start 7).table 5).wait_list ≡ 7 ∷ [])
unfolding lockmanager_regist regist_tasks regist_task dup_check wait_add upgrade_future
regist_tasks_run = (refl, refl)

-- Transaction 4 is next at tuple 8, which 3 still reads, and 7 waits behind it.
abbrev reader : State
reader = record {
  table = λ k. record {
    lock = record { counter = if k == 8 then pos 1 else pos 0 };
    wait_list = if k == 8 then 4 ∷ 7 ∷ [] else [];
    value = 0;
  };
  tx = clear (record { ope = read; key = 8 } ∷ []) (record { ope = read; key = 8 } ∷ []);
}

reader-IsReady : IsReady reader 4 reader.tx.future_lock
unfolding is_head
reader-IsReady = record {
  once = λ k. ground arith;
  no_sleep = λ k. ground arith;
  heads = λ k h. ground (arith, h);
  r_free = λ k h. ground (arith, h);
  w_free = λ k h. ground (arith, h);
}

lockmanager_regist-Registered_example : Registered start 7 tasks (lockmanager_regist start 7)
lockmanager_regist-Registered_example = lockmanager_regist-Registered start 7 refl

check_waitlist-Taken_example :
    (s' : State) × (check_waitlist 1 reader 4 ≡ some s')
    × (s'.tx.future_lock ≡ [])
    × Taken (without_future reader) reader.tx.future_lock s'
check_waitlist-Taken_example = check_waitlist-Taken reader 4 0 reader-IsReady

run_transaction_alone_example :
    (s' : State) × (run_transaction 1 start 7 tasks ≡ some s')
    × ((k : ℕ)
        → ((s'.table k).lock.counter ≡ (table k).lock.counter)
          × ((s'.table k).wait_list ≡ (table k).wait_list)
          × ((s'.table k).value ≡ (if any_task (writes_key k) tasks then 100 else 0)))
    × IsClear s'.tx
run_transaction_alone_example = run_transaction_alone start 7 0 tasks start-IsClear start-AreFree

-- The writer 7 does not get past the reader 4 before it.
waits :
    check_waitlist 3 (record reader { tx = clear [] (record { ope = write; key = 8 } ∷ []) }) 7
    ≡ none
unfolding check_waitlist check_items check_item is_head r_try_lock w_try_lock r_trylock w_trylock
waits = refl

reader-AreQueues : AreQueues 9 reader.table
reader-AreQueues k = elim (Bool-cases (k == 8)) [
  | inl e ↦ rw e (omega arith, (omega arith, tt), (omega arith, tt, tt))
  | inr e ↦ rw e tt
]

wait_lists_ascend_example :
    AreQueues 10 (lockmanager_regist (record { table = reader.table; tx = start.tx }) 9).table
    × AreQueues 9 (check_item reader 4 (record { ope = read; key = 8 })).state.table
wait_lists_ascend_example =
    wait_lists_ascend reader.table start.tx reader.tx 9 4 (record { ope = read; key = 8 }) refl
      reader-AreQueues

least_of_two : (y : ℕ) → contains y (4 ∷ 7 ∷ []) ≡ true → 4 ≤ y
least_of_two y h = ground (arith, h)
