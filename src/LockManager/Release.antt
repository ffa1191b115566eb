-- ===== src/LockManager/Release.antt =====
-- lock-manager/ss2pl.cc: the reads and writes of `worker`, and the unlocks of `commit`.
use ccbench.Common.{ℕ, ◌≤◌, ◌≡◌, refl, false, if◌then◌else◌, List, [], ◌∷◌, count, contains, arith}
use ccbench.Common.Int.{increment, decrement}
use ccbench.Rwlock.{r_unlock, w_unlock}
use ccbench.LockManager.Types.{Task, Table, Transaction, State, keys, set_lock}
use ccbench.LockManager.Operations.{read_key, write_key, execute, unlock_reads, unlock_writes}
use ccbench.LockManager.Register.{any_task, reads_key, writes_key}
use ccbench.LockManager.Acquire.{read_keys, write_keys}

-- Everything but the read and write sets.
abbrev pub without_sets : Transaction → Transaction
without_sets x = record x { read_set = []; write_set = [] }

pub execute_lem :
    (s : State) (ts : List Task)
    → ((k : ℕ)
        → ((execute s ts).table k).value
          ≡ (if any_task (writes_key k) ts then 100 else (s.table k).value))
      × ((k : ℕ) → ((execute s ts).table k).wait_list ≡ (s.table k).wait_list)
      × ((k : ℕ) → ((execute s ts).table k).lock ≡ (s.table k).lock)
      × (without_sets (execute s ts).tx ≡ without_sets s.tx)
unfolding execute read_key write_key
execute_lem s [] = (λ k. refl, λ k. refl, λ k. refl, refl)
execute_lem s (t ∷ ts) =
    let r = execute_lem (read_key s t.key) ts in
    let w = execute_lem (write_key s t.key) ts in
    let n = execute_lem s ts in
    (
      λ k. ground (arith, r.0 k, w.0 k, n.0 k),
      λ k. ground (arith, r.1 k, w.1 k, n.1 k),
      λ k. ground (arith, r.2 k, w.2 k, n.2 k),
      ground (arith, r.3, w.3, n.3),
    )

module _ (k : ℕ) where
  not-contains-keys : (ks : List ℕ) → count k ks ≡ 0 → contains k ks ≡ false
  not-contains-keys [] h = refl
  not-contains-keys (x ∷ ks) h = ground (arith, not-contains-keys ks)

  pub unlock_reads_lem :
      (t : Table) (ks : List ℕ)
      → count k ks ≤ 1
      → ((unlock_reads t ks k).lock.counter
          ≡ (if contains k ks then decrement (t k).lock.counter else (t k).lock.counter))
        × ((unlock_reads t ks k).wait_list ≡ (t k).wait_list)
        × ((unlock_reads t ks k).value ≡ (t k).value)
  unfolding unlock_reads r_unlock
  unlock_reads_lem t [] h = (refl, refl, refl)
  unlock_reads_lem t (j ∷ ks) h =
      let rest = unlock_reads_lem (set_lock t j (r_unlock (t j).lock)) ks (omega arith) in
      (ground (arith, rest.0, not-contains-keys ks), ground (arith, rest.1), ground (arith, rest.2))

  pub unlock_writes_lem :
      (t : Table) (ks : List ℕ)
      → count k ks ≤ 1
      → ((unlock_writes t ks k).lock.counter
          ≡ (if contains k ks then increment (t k).lock.counter else (t k).lock.counter))
        × ((unlock_writes t ks k).wait_list ≡ (t k).wait_list)
        × ((unlock_writes t ks k).value ≡ (t k).value)
  unfolding unlock_writes w_unlock
  unlock_writes_lem t [] h = (refl, refl, refl)
  unlock_writes_lem t (j ∷ ks) h =
      let rest = unlock_writes_lem (set_lock t j (w_unlock (t j).lock)) ks (omega arith) in
      (ground (arith, rest.0, not-contains-keys ks), ground (arith, rest.1), ground (arith, rest.2))

  pub contains-read_keys : (ts : List Task) → contains k (read_keys ts) ≡ any_task (reads_key k) ts
  contains-read_keys [] = refl
  contains-read_keys (t ∷ ts) = ground (arith, contains-read_keys ts)

  pub contains-write_keys :
      (ts : List Task) → contains k (write_keys ts) ≡ any_task (writes_key k) ts
  contains-write_keys [] = refl
  contains-write_keys (t ∷ ts) = ground (arith, contains-write_keys ts)

  pub count-read_keys : (ts : List Task) → count k (read_keys ts) ≤ count k (keys ts)
  count-read_keys [] = omega arith
  count-read_keys (t ∷ ts) = ground (arith, count-read_keys ts)

  pub count-write_keys : (ts : List Task) → count k (write_keys ts) ≤ count k (keys ts)
  count-write_keys [] = omega arith
  count-write_keys (t ∷ ts) = ground (arith, count-write_keys ts)
