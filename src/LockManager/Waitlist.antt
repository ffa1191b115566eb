-- ===== src/LockManager/Waitlist.antt =====
-- `check_waitlist` of lock-manager/ss2pl.cc takes all locks of a transaction whose turn it is.
use ccbench.Common.{ℕ, zero, suc, ◌≡◌, refl, ◌∙◌, List, [], ◌∷◌, ◌⊎◌, inl, inr, arith, some}
use mathlib.Core.List.{append_assoc, append-nil}
use ccbench.LockManager.Types.{Task, State, keys}
use ccbench.LockManager.Operations.{check_items, check_pass, check_waitlist}
use ccbench.LockManager.Register.{reads-none}
use ccbench.LockManager.Acquire.{
  IsReady, Taken, read_keys, write_keys, writes-none, not-contains, after, is_lock, check_item_lem,
  after-IsReady,
}

check_items-Taken :
    (s : State) (tx_id : ℕ) (items : List Task)
    → IsReady s tx_id items
    → ((check_items s tx_id items).kept ≡ []) × Taken s items (check_items s tx_id items).state
unfolding check_items after
check_items-Taken s tx_id [] ready = (
  refl,
  record {
    wait_lists = λ k. refl;
    counters = λ k. refl;
    values = λ k. refl;
    tx_lists = ground (arith, append-nil s.tx.r_lock_list, append-nil s.tx.w_lock_list);
  },
)
check_items-Taken s tx_id (item ∷ items) ready =
    let lem = check_item_lem s tx_id item items ready in
    let ih =
      check_items-Taken (after s tx_id item items ready) tx_id items
        (after-IsReady s tx_id item items ready) in
    rw lem.0 (
      ih.0,
      record {
        wait_lists = λ k. ground (
          arith,
          lem.1 k,
          ih.1.wait_lists k,
          not-contains item.key (keys items),
          ready.once item.key,
        );
        counters = λ k. ground (
          arith,
          lem.2 k,
          ih.1.counters k,
          ready.once item.key,
          is_lock s tx_id item items ready,
          reads-none 0 item.key items,
          writes-none item.key items,
        );
        values = λ k. ih.1.values k ∙ lem.3 k;
        tx_lists = ground (
          arith,
          lem.4,
          ih.1.tx_lists,
          append_assoc s.tx.r_lock_list (item.key ∷ []) (read_keys items),
          append_assoc s.tx.w_lock_list (item.key ∷ []) (write_keys items),
          append-nil s.tx.r_lock_list,
          append-nil s.tx.w_lock_list,
        );
      },
    )

List-cases : (ts : List Task) → (ts ≡ []) ⊎ ((t : Task) × (rest : List Task) × (ts ≡ t ∷ rest))
List-cases [] = inl refl
List-cases (t ∷ ts) = inr (t, ts, refl)

check_waitlist-empty :
    (fuel : ℕ) (s : State) (tx_id : ℕ)
    → s.tx.future_lock ≡ []
    → check_waitlist fuel s tx_id ≡ some s
unfolding check_waitlist
check_waitlist-empty zero s tx_id empty = rw empty refl
check_waitlist-empty (suc fuel) s tx_id empty = rw empty refl

check_waitlist-full :
    (fuel : ℕ) (s : State) (tx_id : ℕ) (e : Task) (es : List Task)
    → s.tx.future_lock ≡ e ∷ es
    → check_waitlist (suc fuel) s tx_id ≡ check_waitlist fuel (check_pass s tx_id) tx_id
unfolding check_waitlist
check_waitlist-full fuel s tx_id e es full = rw full refl

-- `future_lock_` cleared.
abbrev pub without_future : State → State
without_future s = record s { tx = record s.tx { future_lock = [] } }

-- A transaction that heads the wait lists of all its future locks, and whose locks are free for it,
-- takes them all in one round of the outer loop of `check_waitlist`.
pub check_waitlist-Taken :
    (s : State) (tx_id fuel : ℕ)
    → IsReady s tx_id s.tx.future_lock
    → (s' : State) × (check_waitlist (suc fuel) s tx_id ≡ some s')
      × (s'.tx.future_lock ≡ [])
      × Taken (without_future s) s.tx.future_lock s'
check_waitlist-Taken s tx_id fuel ready = elim (List-cases s.tx.future_lock) [
  | inl empty ↦ (
    s,
    check_waitlist-empty (suc fuel) s tx_id empty,
    empty,
    record {
      wait_lists = λ k. rw empty refl;
      counters = λ k. rw empty refl;
      values = λ k. refl;
      tx_lists = ground (arith, empty, append-nil s.tx.r_lock_list, append-nil s.tx.w_lock_list);
    },
  )
  | inr (e, es, full) ↦
      let taken = check_items-Taken s tx_id s.tx.future_lock ready in
      (
        check_pass s tx_id,
        check_waitlist-full fuel s tx_id e es full
            ∙ check_waitlist-empty fuel (check_pass s tx_id) tx_id taken.0,
        taken.0,
        record {
          wait_lists = taken.1.wait_lists;
          counters = taken.1.counters;
          values = taken.1.values;
          tx_lists = ground (arith, taken.0, taken.1.tx_lists);
        },
      )
]
