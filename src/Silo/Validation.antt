-- ===== src/Silo/Validation.antt =====
-- `validationPhase` and `writePhase` of silo/transaction.cc, on a table that no other worker changes.
use ccbench.Common.{
  ℕ, ◌≡◌, refl, ap, ◌∙◌, Bool, true, false, ◌⊎◌, List, [], ◌∷◌, contains, arith, inl, inr, All,
  All-map,
}
use ccbench.Common.Family.{assign}
use ccbench.Common.Sort.{contains-sort}
use ccbench.Procedure.{Payload}
use ccbench.Silo.Tidword.{Tidword, choose_tid}
use ccbench.Silo.Operations.{
  Table, ReadElement, WriteElement, TxnExecutor, write_keys, unlock_write_set, lock_write_set,
  Locked, by_key, is_current, all_current, validation_phase, write_all, write_phase, Written,
  stored,
}
use ccbench.Silo.Unlocking.{IsLocked, unlock_write_set-restores, lock_write_set_lem}

-- `validationPhase` up to the test of the read set.
abbrev locked : Table → TxnExecutor → Locked
locked t x = lock_write_set [] (by_key x.write_set) t x.max_wset

locked_lem :
    (t : Table) (x : TxnExecutor) (k : ℕ)
    → ((locked t x).success ≡ false → (locked t x).table k ≡ t k)
      × ((locked t x).success ≡ true → IsLocked (by_key x.write_set) t (locked t x).table k)
locked_lem t x k =
    lock_write_set_lem [] (by_key x.write_set) t t x.max_wset
      (λ j. record { now = refl; free = λ c. cc }) k

-- What `validationPhase` returns, and the table, in terms of its two parts.
reads_valid : Table → TxnExecutor → Bool
reads_valid t x = all_current (locked t x).table (by_key x.write_set) x.read_set

outcome :
    (epoch : ℕ) (t : Table) (x : TxnExecutor)
    → ((validation_phase epoch t x).valid ≡ true
        → ((locked t x).success ≡ true)
          × (reads_valid t x ≡ true)
          × ((validation_phase epoch t x).table ≡ (locked t x).table)
          × ((validation_phase epoch t x).tx.write_set ≡ by_key x.write_set))
      × ((validation_phase epoch t x).valid ≡ false
          → ((locked t x).success ≡ false)
              × ((validation_phase epoch t x).table ≡ (locked t x).table)
            ⊎ ((locked t x).success ≡ true)
              × ((validation_phase epoch t x).table
                  ≡ unlock_write_set (by_key x.write_set) (locked t x).table))
unfolding validation_phase reads_valid
outcome epoch t x = ground arith

-- On a table that no other worker changes, a validation that fails, at a lock or at the read set,
-- leaves every tuple as it was.
pub failed_validation_restores :
    (epoch : ℕ) (t : Table) (x : TxnExecutor)
    → (validation_phase epoch t x).valid ≡ false
    → (k : ℕ) → (validation_phase epoch t x).table k ≡ t k
failed_validation_restores epoch t x f k = elim ((outcome epoch t x).1 f) [
  | inl (s, e) ↦ ap (λ (u : Table). u k) e ∙ (locked_lem t x k).0 s
  | inr (s, e) ↦
      ap (λ (u : Table). u k) e
      ∙ unlock_write_set-restores (by_key x.write_set) t (locked t x).table k
          ((locked_lem t x k).1 s)
]

all_current_lem :
    (t : Table) (ws : List WriteElement) (es : List ReadElement)
    → all_current t ws es ≡ true
    → All (λ (e : ReadElement). is_current t ws e ≡ true) es
unfolding all_current
all_current_lem t ws [] h = tt
all_current_lem t ws (e ∷ es) h = (ground arith, all_current_lem t ws es (ground arith))

write_all_lem :
    (v : Payload) (c : Tidword) (ws : List WriteElement) (t : Table) (k : ℕ)
    → (contains k (write_keys ws) ≡ true → (write_all v c ws t k).tidword ≡ c)
      × (contains k (write_keys ws) ≡ false → write_all v c ws t k ≡ t k)
unfolding write_all
write_all_lem v c [] t k = (λ h. cc, λ h. refl)
write_all_lem v c (w ∷ ws) t k = ground (
  arith,
  write_all_lem v c ws (assign t w.key (record { tidword = c; val = stored v w.val (t w.key).val }))
      k,
)

-- After a validation that succeeds, from a table that no other worker changes, each tuple that was
-- read has the epoch and the TID that it had then, and was free.
pub validation_reads :
    (epoch : ℕ) (t : Table) (x : TxnExecutor)
    → (validation_phase epoch t x).valid ≡ true
    → All
        (λ (e : ReadElement).
          (e.tidword.epoch ≡ (t e.key).tidword.epoch)
          × (e.tidword.tid ≡ (t e.key).tidword.tid)
          × ((t e.key).tidword.lock ≡ false))
        x.read_set
unfolding is_current reads_valid
validation_reads epoch t x v =
    All-map _ _
      (λ e c. ground (
        arith,
        c,
        ((locked_lem t x e.key).1 ((outcome epoch t x).0 v).0).now,
        ((locked_lem t x e.key).1 ((outcome epoch t x).0 v).0).free,
      ))
      x.read_set
      (all_current_lem (locked t x).table (by_key x.write_set) x.read_set
        ((outcome epoch t x).0 v).1)

-- `validationPhase` and then `writePhase`, as in `worker`.
abbrev pub validate_and_write : ℕ → Table → TxnExecutor → Written
validate_and_write epoch t x =
    write_phase (validation_phase epoch t x).table (validation_phase epoch t x).tx

-- On a table that no other worker changes, a validation that succeeds and the write phase after it give every tuple of the write set the TID
-- that the transaction has chosen, unlocked, and leave every other tuple as it was before; no tuple
-- of the write set was locked before.
pub commit_writes :
    (epoch : ℕ) (t : Table) (x : TxnExecutor)
    → (validation_phase epoch t x).valid ≡ true
    → (k : ℕ)
    → (contains k (write_keys x.write_set) ≡ true
        → ((validate_and_write epoch t x).table k).tidword
            ≡ (validate_and_write epoch t x).tx.mrctid
          × ((validate_and_write epoch t x).tx.mrctid.lock ≡ false)
          × ((t k).tidword.lock ≡ false))
      × (contains k (write_keys x.write_set) ≡ false → (validate_and_write epoch t x).table k ≡ t k)
unfolding write_phase choose_tid
commit_writes epoch t x v k = (
  λ h. (
    written.0 (member ∙ h),
    refl,
    lk.free (contains-sort (λ (w : WriteElement). w.key) k x.write_set ∙ h),
  ),
  λ h.
      written.1 (member ∙ h)
      ∙ ap (λ (u : Table). u k) o.2
      ∙ ground (arith, lk.now, contains-sort (λ (w : WriteElement). w.key) k x.write_set),
)
  where
    o :
        ((locked t x).success ≡ true)
        × (reads_valid t x ≡ true)
        × ((validation_phase epoch t x).table ≡ (locked t x).table)
        × ((validation_phase epoch t x).tx.write_set ≡ by_key x.write_set)
    o = (outcome epoch t x).0 v

    c : Tidword
    c = (validate_and_write epoch t x).tx.mrctid

    lk : IsLocked (by_key x.write_set) t (locked t x).table k
    lk = (locked_lem t x k).1 o.0

    member :
        contains k (write_keys (validation_phase epoch t x).tx.write_set)
        ≡ contains k (write_keys x.write_set)
    member =
        ap (λ (ws : List WriteElement). contains k (write_keys ws)) o.3
        ∙ contains-sort (λ (w : WriteElement). w.key) k x.write_set

    written :
        (contains k (write_keys (validation_phase epoch t x).tx.write_set) ≡ true
          → ((validate_and_write epoch t x).table k).tidword ≡ c)
        × (contains k (write_keys (validation_phase epoch t x).tx.write_set) ≡ false
            → (validate_and_write epoch t x).table k ≡ (validation_phase epoch t x).table k)
    written =
        write_all_lem (validation_phase epoch t x).tx.write_val c
          (validation_phase epoch t x).tx.write_set (validation_phase epoch t x).table k
