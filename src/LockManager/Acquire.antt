-- ===== src/LockManager/Acquire.antt =====
-- The rounds of `check_waitlist` of lock-manager/ss2pl.cc, for a transaction whose turn it is.
use ccbench.Common.{
  ℕ, ◌≤◌, ◌≡◌, refl, true, false, ◌||◌, ◌==◌, if◌then◌else◌, List, [], ◌∷◌, ◌++◌, count, contains,
  arith,
}
use mathlib.Core.List.{append-nil}
use ccbench.Common.Int.{ℤ, pos, minus_one, increment, ◌==ℤ◌}
use ccbench.Rwlock.{RwLock, done, r_trylock, w_trylock}
use ccbench.LockManager.Types.{Task, State, keys}
use ccbench.LockManager.Operations.{r_try_lock, w_try_lock, is_head, tail, check_item}
use ccbench.LockManager.Register.{any_task, is_read, is_write, reads_key, writes_key, reads-none}

==ℤ_refl : (c : ℤ) → (c ==ℤ c) ≡ true
==ℤ_refl (pos n) = ground arith
==ℤ_refl (ℤ.negsuc n) = ground arith

pub r_try_lock_lem :
    (l : RwLock)
    → (l.counter ==ℤ minus_one) ≡ false
    → r_try_lock l ≡ record { lock = record { counter = increment l.counter }; outcome = done true }
unfolding r_try_lock r_trylock
r_try_lock_lem l free = rw free (rw (==ℤ_refl l.counter) refl)

pub w_try_lock_lem :
    (l : RwLock)
    → (l.counter ==ℤ pos 0) ≡ true
    → w_try_lock l ≡ record { lock = record { counter = minus_one }; outcome = done true }
unfolding w_try_lock w_trylock
w_try_lock_lem l free = rw free (rw (==ℤ_refl l.counter) refl)

-- The keys of the read locks and of the write locks.
abbrev pub read_keys : List Task → List ℕ
read_keys [] = []
read_keys (t ∷ ts) = if is_read t.ope then t.key ∷ read_keys ts else read_keys ts

abbrev pub write_keys : List Task → List ℕ
write_keys [] = []
write_keys (t ∷ ts) = if is_write t.ope then t.key ∷ write_keys ts else write_keys ts

-- The transaction heads every wait list it stands in, and the locks are free for it.
pub record IsReady (s : State) (tx_id : ℕ) (items : List Task) : Type 0 where
  pub once : (k : ℕ) → count k (keys items) ≤ 1
  pub no_sleep :
      (k : ℕ)
      → contains k (keys items) ≡ (any_task (reads_key k) items || any_task (writes_key k) items)
  pub heads : (k : ℕ) → contains k (keys items) ≡ true → is_head (s.table k).wait_list tx_id ≡ true
  pub r_free :
      (k : ℕ)
      → any_task (reads_key k) items ≡ true
      → ((s.table k).lock.counter ==ℤ minus_one) ≡ false
  pub w_free :
      (k : ℕ) → any_task (writes_key k) items ≡ true → ((s.table k).lock.counter ==ℤ pos 0) ≡ true

-- What holds after all of `items` have been taken.
pub record Taken (s : State) (items : List Task) (s' : State) : Type 0 where
  pub wait_lists :
      (k : ℕ)
      → (s'.table k).wait_list
        ≡ (if contains k (keys items) then tail (s.table k).wait_list else (s.table k).wait_list)
  pub counters :
      (k : ℕ)
      → (s'.table k).lock.counter ≡ (
          if any_task (reads_key k) items
          then increment (s.table k).lock.counter
          else if any_task (writes_key k) items
          then minus_one
          else (s.table k).lock.counter)
  pub values : (k : ℕ) → (s'.table k).value ≡ (s.table k).value
  pub tx_lists : s'.tx ≡ record s.tx {
    r_lock_list = s.tx.r_lock_list ++ read_keys items;
    w_lock_list = s.tx.w_lock_list ++ write_keys items;
  }

pub writes-none :
    (j : ℕ) (ts : List Task) → count j (keys ts) ≡ 0 → any_task (writes_key j) ts ≡ false
writes-none j [] h = refl
writes-none j (t ∷ ts) h = ground (arith, writes-none j ts)

pub not-contains : (k : ℕ) (ks : List ℕ) → count k ks ≡ 0 → contains k ks ≡ false
not-contains k [] h = refl
not-contains k (x ∷ ks) h = ground (arith, not-contains k ks)

module _ (s : State) (tx_id : ℕ) (item : Task) (items : List Task)
    (ready : IsReady s tx_id (item ∷ items)) where
  unfoldable pub after : State
  after = (check_item s tx_id item).state

  head : is_head (s.table item.key).wait_list tx_id ≡ true
  head = ready.heads item.key (ground arith)

  not_later : count item.key (keys items) ≡ 0
  not_later = ground (arith, ready.once item.key)

  pub is_lock : (is_read item.ope || is_write item.ope) ≡ true
  is_lock = ground (
    arith,
    ready.no_sleep item.key,
    reads-none 0 item.key items not_later,
    writes-none item.key items not_later,
  )

  r_lock_free : is_read item.ope ≡ true → ((s.table item.key).lock.counter ==ℤ minus_one) ≡ false
  r_lock_free r = ready.r_free item.key (ground (arith, r))

  w_lock_free : is_write item.ope ≡ true → ((s.table item.key).lock.counter ==ℤ pos 0) ≡ true
  w_lock_free w = ready.w_free item.key (ground (arith, w))

  r_taken :
      is_read item.ope ≡ true
      → r_try_lock (s.table item.key).lock ≡ record {
        lock = record { counter = increment (s.table item.key).lock.counter };
        outcome = done true;
      }
  r_taken r = r_try_lock_lem (s.table item.key).lock (r_lock_free r)

  w_taken :
      is_write item.ope ≡ true
      → w_try_lock (s.table item.key).lock
        ≡ record { lock = record { counter = minus_one }; outcome = done true }
  w_taken w = w_try_lock_lem (s.table item.key).lock (w_lock_free w)

  pub check_item_lem :
      ((check_item s tx_id item).erased ≡ true)
      × ((k : ℕ)
          → (after.table k).wait_list
            ≡ (if item.key == k then tail (s.table k).wait_list else (s.table k).wait_list))
      × ((k : ℕ)
          → (after.table k).lock.counter ≡ (
              if item.key == k
              then (if is_read item.ope then increment (s.table k).lock.counter else minus_one)
              else (s.table k).lock.counter))
      × ((k : ℕ) → (after.table k).value ≡ (s.table k).value)
      × (after.tx ≡ record s.tx {
        r_lock_list = s.tx.r_lock_list ++ read_keys (item ∷ []);
        w_lock_list = s.tx.w_lock_list ++ write_keys (item ∷ []);
      })
  unfolding check_item after
  check_item_lem = (
    ground (arith, head, is_lock, r_taken, w_taken),
    λ k. ground (arith, head, is_lock, r_taken, w_taken),
    λ k. ground (arith, head, is_lock, r_taken, w_taken),
    λ k. ground (arith, head, is_lock, r_taken, w_taken),
    ground (
      arith,
      head,
      is_lock,
      r_taken,
      w_taken,
      append-nil s.tx.r_lock_list,
      append-nil s.tx.w_lock_list,
    ),
  )

  pub after-IsReady : IsReady after tx_id items
  after-IsReady = record {
    once = λ k. ground (arith, ready.once k);
    no_sleep = λ k. ground (
      arith,
      ready.no_sleep k,
      is_lock,
      not_later,
      reads-none 0 item.key items not_later,
      writes-none item.key items not_later,
      not-contains item.key (keys items),
    );
    heads = λ k h. ground (
      arith,
      h,
      ready.heads k,
      check_item_lem.1 k,
      not-contains item.key (keys items),
      not_later,
    );
    r_free = λ k h.
        ground
          (arith, h, ready.r_free k, check_item_lem.2 k, reads-none 0 item.key items not_later);
    w_free = λ k h.
        ground (arith, h, ready.w_free k, check_item_lem.2 k, writes-none item.key items not_later);
  }
