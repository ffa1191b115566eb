-- ===== src/LockManager/Order.antt =====
-- The order of the wait lists of lock-manager/ss2pl.cc.
use ccbench.Common.{
  ℕ, ◌+◌, ◌<◌, ◌≤◌, ◌≡◌, Bool, true, false, if◌then◌else◌, List, [], ◌∷◌, ◌++◌, All, All-append,
  contains, ◌==◌, Bool-cases, ◌⊎◌, inl, inr, arith, subst, sym,
}
use ccbench.LockManager.Types.{Task, Table, State, Transaction}
use ccbench.LockManager.Operations.{is_head, tail, check_item, lockmanager_regist}
use ccbench.LockManager.Register.{accesses, lockmanager_regist-Registered}

-- A wait list of ids below `bound`, in ascending order, none twice.
abbrev pub IsQueue : ℕ → List ℕ → Type 0
IsQueue bound [] = Unit
IsQueue bound (x ∷ xs) = (x < bound) × All (λ (y : ℕ). x < y) xs × IsQueue bound xs

abbrev pub AreQueues : ℕ → Table → Type 0
AreQueues bound t = (k : ℕ) → IsQueue bound (t k).wait_list

IsQueue-later : (b : ℕ) (xs : List ℕ) → IsQueue b xs → IsQueue (b + 1) xs
IsQueue-later b [] h = tt
IsQueue-later b (x ∷ xs) h = (omega (arith, h.0), h.1, IsQueue-later b xs h.2)

IsQueue-append : (b : ℕ) (xs : List ℕ) → IsQueue b xs → IsQueue (b + 1) (xs ++ b ∷ [])
IsQueue-append b [] h = (omega arith, tt, tt)
IsQueue-append b (x ∷ xs) h = (
  omega (arith, h.0),
  All-append (λ (y : ℕ). x < y) xs (b ∷ []) h.1 (h.0, tt),
  IsQueue-append b xs h.2,
)

IsQueue-tail : (b : ℕ) (xs : List ℕ) → IsQueue b xs → IsQueue b (tail xs)
IsQueue-tail b [] h = tt
IsQueue-tail b (x ∷ xs) h = h.2

check_item-wait_list :
    (s : State) (tx_id : ℕ) (item : Task) (k : ℕ)
    → ((((check_item s tx_id item).state.table k).wait_list ≡ (s.table k).wait_list)
        ⊎ (((check_item s tx_id item).state.table k).wait_list ≡ tail (s.table k).wait_list))
unfolding check_item
check_item-wait_list s tx_id item k = ground arith

appended :
    (b : ℕ) (added : Bool) (xs : List ℕ)
    → IsQueue b xs
    → IsQueue (b + 1) (if added then xs ++ b ∷ [] else xs)
appended b true xs h = IsQueue-append b xs h
appended b false xs h = IsQueue-later b xs h

-- While every wait list has ids below the counter, in ascending order and none twice, registering a
-- transaction with the id of the counter, from an empty `future_lock_`, leaves this so for the next id,
-- and no round of `check_waitlist` by any transaction changes it.
pub wait_lists_ascend :
    (t : Table) (registering checking : Transaction) (bound tx_id : ℕ) (item : Task)
    → registering.future_lock ≡ []
    → AreQueues bound t
    → AreQueues
        (bound + 1)
        (lockmanager_regist (record { table = t; tx = registering }) bound).table
      × AreQueues bound (check_item (record { table = t; tx = checking }) tx_id item).state.table
wait_lists_ascend t registering checking bound tx_id item empty queues = (
  λ k.
      let s : State = record { table = t; tx = registering } in
      subst (IsQueue (bound + 1)) (sym ((lockmanager_regist-Registered s bound empty).wait_lists k))
        (appended bound (accesses k registering.task_set) (t k).wait_list (queues k)),
  λ k. elim (check_item-wait_list (record { table = t; tx = checking }) tx_id item k) [
    | inl same ↦ subst (IsQueue bound) (sym same) (queues k)
    | inr shorter ↦
        subst (IsQueue bound) (sym shorter) (IsQueue-tail bound (t k).wait_list (queues k))
  ],
)

below : (x y : ℕ) (xs : List ℕ) → All (λ (z : ℕ). x < z) xs → contains y xs ≡ true → x < y
below x y [] h c = ground (arith, c)
below x y (z ∷ xs) h c = elim (Bool-cases (z == y)) [
  | inl e ↦ ground (arith, e, h.0)
  | inr e ↦ below x y xs h.1 (ground (arith, e, c))
]

-- In a wait list whose ids ascend, the least transaction that waits is the one at the head, so that it
-- waits for no other transaction that has yet to take its lock.
least_is_head :
    (bound tx_id : ℕ) (ids : List ℕ)
    → IsQueue bound ids
    → contains tx_id ids ≡ true
    → ((y : ℕ) → contains y ids ≡ true → tx_id ≤ y)
    → is_head ids tx_id ≡ true
unfolding is_head
least_is_head bound tx_id [] queue waits least = waits
least_is_head bound tx_id (x ∷ xs) queue waits least = elim (Bool-cases (x == tx_id)) [
  | inl e ↦ ground (arith, e)
  | inr e ↦
      let later : x < tx_id = below x tx_id xs queue.1 (ground (arith, e, waits)) in
      let first : tx_id ≤ x = least x (ground arith) in absurd (omega (arith, later, first))
]
