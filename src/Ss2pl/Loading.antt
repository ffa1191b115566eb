-- ===== src/Ss2pl/Loading.antt =====
-- What `readWrite` of ss2pl/transaction.cc copies to `return_val_`.
use ccbench.Common.{
  ℕ, ◌≡◌, false, [], ◌∷◌, contains, count-append, All, arith, inl, inr, Bool-cases,
}
use ccbench.Rwlock.{w_trylock}
use ccbench.Ss2pl.Types.{Ope, read, write, read_modify_write, Procedure, keys}
use ccbench.Ss2pl.Operations.{
  State, succeeded, try_now, search_read_set, search_write_set, lock_write, read_write_key, execute,
}
use ccbench.Ss2pl.Effects.{IsCurrent}
use ccbench.Ss2pl.Workers.{is_aborted, loaded}

abbrev IsLoaded : State → Procedure → State → Type 0
IsLoaded s p s' =
    is_aborted s'.tx.status ≡ false → All (IsCurrent s'.table s'.tx) (loaded s.tx p s'.tx)

module _ (s : State) (key : ℕ) where
  abbrev rmw : Procedure
  rmw = record { ope = read_modify_write; key = key }

  -- A lock that is taken is listed, and the payload is that of the tuple.
  lock_write-IsCurrent :
      is_aborted (lock_write (λ v _. v) s key).tx.status ≡ false
      → IsCurrent
          (lock_write (λ v _. v) s key).table
          (lock_write (λ v _. v) s key).tx
          (record { key = key; val = (lock_write (λ v _. v) s key).tx.return_val })
  unfolding lock_write
  lock_write-IsCurrent = elim (Bool-cases (succeeded (try_now w_trylock (s.table key)).outcome)) [
    | inl won ↦
        rw won (λ h. (ground (arith, count-append key s.tx.w_lock_list (key ∷ [])), ground arith))
    | inr lost ↦ rw lost (λ h. absurd (ground (arith, h)))
  ]

  read_write_key-IsLoaded : IsLoaded s rmw (read_write_key s key)
  unfolding read_write_key search_read_set search_write_set
  read_write_key-IsLoaded = elim (Bool-cases (contains key s.tx.write_set)) [
    | inl own ↦ rw own (λ h. ground (arith, h))
    | inr free ↦ elim (Bool-cases (contains key (keys s.tx.read_set))) [
      | inl old ↦ rw (free, old) (λ h. ground (arith, h))
      | inr fresh ↦ rw (free, fresh) (λ h. rw h (lock_write-IsCurrent h, tt))
    ]
  ]

-- After an operation that does not abort, what it has copied is the payload of a tuple that the
-- transaction has locked.
pub execute-IsLoaded : (s : State) (p : Procedure) → IsLoaded s p (execute s p)
unfolding execute search_read_set search_write_set
execute-IsLoaded s p = dispatch p.ope
  where
    dispatch : (o : Ope) → IsLoaded s (record p { ope = o }) (execute s (record p { ope = o }))
    dispatch read h = tt
    dispatch write h = tt
    dispatch read_modify_write h = read_write_key-IsLoaded s p.key h
