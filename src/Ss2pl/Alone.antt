-- ===== src/Ss2pl/Alone.antt =====
-- A worker that no other interrupts: its rounds add up to the functions of ss2pl/transaction.cc.
use ccbench.Common.{
  ℕ, suc, ◌+◌, ◌≡◌, refl, sym, ◌∙◌, true, false, if◌then◌else◌, List, [], ◌∷◌, count, contains,
  subst, arith,
}
use ccbench.Rwlock.{RwLock, r_unlock, w_unlock}
use ccbench.Rwlock.Agreement.{Agrees, r_unlock-Agrees, w_unlock-Agrees}
use ccbench.Ss2pl.Types.{Payload, Table}
use ccbench.Ss2pl.Effects.{Agrees-cast, set_lock-Agrees}
use ccbench.Ss2pl.Operations.{set_lock, store, unlock_read, unlock_write, for_each, commit, abort}
use ccbench.Ss2pl.Workers.{idle, storing, unlocking, Worker, proceed, finish, is_aborted}

-- The worker goes in some number of its own steps from one table and state to another.
pub data RunsTo : Table → Worker → Table → Worker → Type 0 where
  done : {t : Table} {w : Worker} → RunsTo t w t w
  round :
      {t t' : Table} {w w' : Worker}
      → RunsTo (proceed w.phase t w).table (proceed w.phase t w).worker t' w'
      → RunsTo t w t' w'

-- The loop of `commit`.
stores :
    (ks : List ℕ) (t : Table) (w : Worker) {t' : Table} {w' : Worker}
    → RunsTo
        (for_each (store w.tx.write_val) ks t)
        (record w { phase = unlocking w.tx.r_lock_list w.tx.w_lock_list })
        t'
        w'
    → RunsTo t (record w { phase = storing ks }) t' w'
unfolding proceed
stores [] t w r = round r
stores (k ∷ ks) t w r = round (stores ks (store w.tx.write_val t k) w r)

-- The loops of `unlockList`.
unlocks_writes :
    (ks : List ℕ) (t : Table) (w : Worker) {t' : Table} {w' : Worker}
    → RunsTo (for_each unlock_write ks t) (record w { phase = unlocking [] [] }) t' w'
    → RunsTo t (record w { phase = unlocking [] ks }) t' w'
unfolding proceed
unlocks_writes [] t w r = r
unlocks_writes (k ∷ ks) t w r = round (unlocks_writes ks (unlock_write t k) w r)

unlocks :
    (reads writes : List ℕ) (t : Table) (w : Worker) {t' : Table} {w' : Worker}
    → RunsTo
        (for_each unlock_write writes (for_each unlock_read reads t))
        (record w { phase = unlocking [] [] })
        t'
        w'
    → RunsTo t (record w { phase = unlocking reads writes }) t' w'
unfolding proceed
unlocks [] writes t w r = unlocks_writes writes t w r
unlocks (k ∷ reads) writes t w r = round (unlocks reads writes (unlock_read t k) w r)

ends :
    (t : Table) (w w' : Worker)
    → finish (record w { phase = unlocking [] [] }) ≡ w'
    → RunsTo t (record w { phase = unlocking [] [] }) t w'
unfolding proceed
ends t w w' e =
    subst (λ (v : Worker). RunsTo t (record w { phase = unlocking [] [] }) t v) e (round done)

-- What the loops of `commit` leave of the payloads and of the locks.
stores_vals :
    (v : Payload) (ks : List ℕ) (t : Table) (k : ℕ)
    → (for_each (store v) ks t k).val ≡ (if contains k ks then v else (t k).val)
unfolding store
stores_vals v [] t k = refl
stores_vals v (j ∷ ks) t k = stores_vals v ks (store v t j) k ∙ ground arith

stores_locks :
    (v : Payload) (ks : List ℕ) (t : Table) (k : ℕ) → (for_each (store v) ks t k).lock ≡ (t k).lock
unfolding store
stores_locks v [] t k = refl
stores_locks v (j ∷ ks) t k = stores_locks v ks (store v t j) k ∙ ground arith

unlocks_vals :
    (f : RwLock → RwLock) (ks : List ℕ) (t : Table) (k : ℕ)
    → (for_each (λ t j. set_lock t j (f (t j).lock)) ks t k).val ≡ (t k).val
unlocks_vals f [] t k = refl
unlocks_vals f (j ∷ ks) t k = unlocks_vals f ks (set_lock t j (f (t j).lock)) k ∙ ground arith

reads_unlocked :
    (ks : List ℕ) (t : Table) (k : ℕ) {r w : ℕ}
    → Agrees (t k).lock (count k ks + r) w
    → Agrees (for_each unlock_read ks t k).lock r w
unfolding unlock_read
reads_unlocked [] t k a = Agrees-cast (t k).lock a (omega arith) refl
reads_unlocked (j ∷ ks) t k a = reads_unlocked ks (unlock_read t j) k (
    set_lock-Agrees t j k (r_unlock (t j).lock) a
      (λ e b. r_unlock-Agrees (t j).lock (Agrees-cast _ b (ground arith) refl))
      (λ e. (ground arith, refl)))

writes_unlocked :
    (ks : List ℕ) (t : Table) (k : ℕ) {r w : ℕ}
    → Agrees (t k).lock r (count k ks + w)
    → Agrees (for_each unlock_write ks t k).lock r w
unfolding unlock_write
writes_unlocked [] t k a = Agrees-cast (t k).lock a refl (omega arith)
writes_unlocked (j ∷ ks) t k a = writes_unlocked ks (unlock_write t j) k (
    set_lock-Agrees t j k (w_unlock (t j).lock) a
      (λ e b. w_unlock-Agrees (t j).lock (Agrees-cast _ b refl (ground arith)))
      (λ e. (refl, ground arith)))

-- From the start of the loop of `commit`, a worker that no other interrupts and that has not aborted is
-- ready for the next transaction in finitely many steps, with no locks listed, empty sets and a commit
-- counted. The payload of each tuple of its write set is then its own, and that of each other is as it
-- was. Where the locks agreed with those that it has listed and those of `r` readers and `w` writers
-- besides, they agree with the latter alone.
pub commit_alone :
    (t : Table) (x : Worker) (r w : ℕ → ℕ)
    → is_aborted x.tx.status ≡ false
    → ((k : ℕ)
        → Agrees (t k).lock (count k x.tx.r_lock_list + r k) (count k x.tx.w_lock_list + w k))
    → (t' : Table) × RunsTo t
        (record x { phase = storing x.tx.write_set })
        t'
        (record x {
          tx = record x.tx { r_lock_list = []; w_lock_list = []; read_set = []; write_set = [] };
          phase = idle;
          local_commit_counts = suc x.local_commit_counts;
        })
      × ((k : ℕ) → (t' k).val ≡ (if contains k x.tx.write_set then x.tx.write_val else (t k).val))
      × ((k : ℕ) → Agrees (t' k).lock (r k) (w k))
unfolding unlock_read unlock_write
commit_alone t x r w h a = (
  _,
  stores x.tx.write_set t x
      (unlocks x.tx.r_lock_list x.tx.w_lock_list _ x (ends _ x _ (ground arith))),
  λ k.
      unlocks_vals w_unlock x.tx.w_lock_list _ k
      ∙ unlocks_vals r_unlock x.tx.r_lock_list _ k
      ∙ stores_vals x.tx.write_val x.tx.write_set t k,
  λ k. writes_unlocked x.tx.w_lock_list _ k (
      reads_unlocked x.tx.r_lock_list _ k (
        subst
          (λ (l : RwLock).
            Agrees l (count k x.tx.r_lock_list + r k) (count k x.tx.w_lock_list + w k))
          (sym (stores_locks x.tx.write_val x.tx.write_set t k)) (a k))),
)

-- The functions `commit` and `abort` are the rounds of `worker` one after the other.
commit-RunsTo :
    (t : Table) (w : Worker)
    → is_aborted w.tx.status ≡ false
    → RunsTo t
        (record w { phase = storing w.tx.write_set })
        (commit (record { table = t; tx = w.tx })).table
        (record w {
          tx = (commit (record { table = t; tx = w.tx })).tx;
          phase = idle;
          local_commit_counts = suc w.local_commit_counts;
        })
unfolding commit
commit-RunsTo t w h =
    stores w.tx.write_set t w
      (unlocks w.tx.r_lock_list w.tx.w_lock_list _ w (ends _ w _ (ground arith)))

-- After an operation that has aborted the transaction, a worker that no other interrupts reaches in
-- finitely many steps the table and the transaction that the function `abort` computes.
abort_alone :
    (t : Table) (w : Worker)
    → is_aborted w.tx.status ≡ true
    → RunsTo t
        (record w { phase = unlocking w.tx.r_lock_list w.tx.w_lock_list })
        (abort (record { table = t; tx = w.tx })).table
        (record w { tx = (abort (record { table = t; tx = w.tx })).tx; phase = idle })
unfolding abort
abort_alone t w h = unlocks w.tx.r_lock_list w.tx.w_lock_list t w (ends _ w _ (ground arith))
