-- ===== src/Ss2pl/Once.antt =====
-- How often an operation of ss2pl/transaction.cc lets a transaction lock a tuple.
use ccbench.Common.{
  ℕ, ◌+◌, ◌≤◌, ◌≡◌, true, false, ◌||◌, ◌==◌, if◌then◌else◌, [], ◌∷◌, contains, count, count-append,
  count-erase, not-contains-count, contains-count, arith, inl, inr, Bool-cases,
}
use ccbench.Rwlock.{r_trylock}
use ccbench.Ss2pl.Types.{Payload, Ope, read, write, read_modify_write, Procedure, TxExecutor, keys}
use ccbench.Ss2pl.Operations.{
  State, succeeded, try_now, read_key, upgrade_read, lock_write, execute,
}
use ccbench.Ss2pl.Effects.{IsMatched}

-- No tuple is locked twice by the transaction, not even for reading and for writing.
abbrev pub IsOnce : TxExecutor → Type 0
IsOnce x = (k : ℕ) → count k x.r_lock_list + count k x.w_lock_list ≤ 1

module _ (s : State) (key : ℕ) (m : IsMatched s.tx) (once : IsOnce s.tx) where
  -- What the searches of the sets say about the locks.
  pub own_write : contains key s.tx.write_set ≡ true → 1 ≤ count key s.tx.w_lock_list
  own_write h = rw m.writes at (contains-count key s.tx.write_set h)

  pub no_write : contains key s.tx.write_set ≡ false → count key s.tx.w_lock_list ≡ 0
  no_write h = rw m.writes at (not-contains-count key s.tx.write_set h)

  pub own_read : contains key (keys s.tx.read_set) ≡ true → 1 ≤ count key s.tx.r_lock_list
  own_read h = rw m.reads at (contains-count key (keys s.tx.read_set) h)

  pub no_read : contains key (keys s.tx.read_set) ≡ false → count key s.tx.r_lock_list ≡ 0
  no_read h = rw m.reads at (not-contains-count key (keys s.tx.read_set) h)

  appended_once :
      count key s.tx.r_lock_list ≡ 0
      → count key s.tx.w_lock_list ≡ 0
      → (k : ℕ)
      → (if key == k then 1 else 0) + (count k s.tx.r_lock_list + count k s.tx.w_lock_list) ≤ 1
  appended_once no_r no_w k = ground (arith, once k)

  read_key-IsOnce : IsOnce (read_key s key).tx
  unfolding read_key
  read_key-IsOnce k =
      elim (Bool-cases (contains key s.tx.write_set || contains key (keys s.tx.read_set))) [
        | inl own ↦ rw own (once k)
        | inr fresh ↦ elim (Bool-cases (succeeded (try_now r_trylock (s.table key)).outcome)) [
          | inl won ↦
              rw (fresh, won)
                (omega (
                  arith,
                  count-append k s.tx.r_lock_list (key ∷ []),
                  appended_once (no_read (ground arith)) (no_write (ground arith)) k,
                ))
          | inr lost ↦ rw (fresh, lost) (once k)
        ]
      ]

  upgrade_read-IsOnce : IsOnce (upgrade_read s key).tx
  unfolding upgrade_read
  upgrade_read-IsOnce k = ground (
    arith,
    once k,
    count-append k s.tx.w_lock_list (key ∷ []),
    count-erase key k s.tx.r_lock_list,
  )

  lock_write-IsOnce :
      (load : Payload → Payload → Payload)
      → count key s.tx.r_lock_list ≡ 0
      → count key s.tx.w_lock_list ≡ 0
      → IsOnce (lock_write load s key).tx
  unfolding lock_write
  lock_write-IsOnce load no_r no_w k =
      ground (arith, appended_once no_r no_w k, count-append k s.tx.w_lock_list (key ∷ []), once k)

  written-IsOnce :
      (load : Payload → Payload → Payload)
      → IsOnce
          (if contains key s.tx.write_set
            then s
            else if contains key (keys s.tx.read_set)
            then upgrade_read s key
            else lock_write load s key).tx
  written-IsOnce load k = elim (Bool-cases (contains key s.tx.write_set)) [
    | inl own ↦ rw own (once k)
    | inr free ↦ elim (Bool-cases (contains key (keys s.tx.read_set))) [
      | inl old ↦ rw (free, old) (upgrade_read-IsOnce k)
      | inr fresh ↦ rw (free, fresh) (lock_write-IsOnce load (no_read fresh) (no_write free) k)
    ]
  ]

-- An operation of a transaction whose lock lists match its sets keeps that.
pub execute-IsOnce :
    (s : State) (p : Procedure) → IsMatched s.tx → IsOnce s.tx → IsOnce (execute s p).tx
unfolding execute
execute-IsOnce s p m once = dispatch p.ope
  where
    dispatch : (o : Ope) → IsOnce (execute s (record p { ope = o })).tx
    dispatch read = read_key-IsOnce s p.key m once
    dispatch write = written-IsOnce s p.key m once (λ _ old. old)
    dispatch read_modify_write = written-IsOnce s p.key m once (λ v _. v)
