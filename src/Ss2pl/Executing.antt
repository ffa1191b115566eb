-- ===== src/Ss2pl/Executing.antt =====
-- The operations of ss2pl/transaction.cc: the effect of each on the locks and the sets.
use ccbench.Common.{
  ℕ, ◌+◌, ◌≡◌, refl, ap, ◌∙◌, Bool, true, ◌||◌, ◌==◌, if◌then◌else◌, List, [], ◌∷◌, ◌++◌, contains,
  erase, count, count-append, count-erase, All, All-append, All-map, arith, inl, inr, Bool-cases,
}
use mathlib.Core.List.{map-append}
use ccbench.Rwlock.{r_trylock, w_trylock, tryupgrade}
use ccbench.Ss2pl.Types.{Payload, Ope, read, write, read_modify_write, Procedure, keys}
use ccbench.Ss2pl.Operations.{
  State, succeeded, try_now, read_key, upgrade_read, lock_write, execute,
}
use ccbench.Ss2pl.Effects.{
  IsMatched, Effect, IsCurrent, unchanged, aborted_Effect, IsCurrent-mono, won_read, won_write,
  won_upgrade, Agrees-cast, set_lock-Agrees, keys-erase_key, All-erase_key, locked_read,
  locked_write, upgraded,
}

abbrev one_if : Bool → ℕ
one_if b = if b then 1 else 0

module _ (s : State) (key : ℕ) (m : IsMatched s.tx)
    (c : All (IsCurrent s.table s.tx) s.tx.read_set) where
  appended : (k : ℕ) (xs : List ℕ) → count k (xs ++ key ∷ []) ≡ one_if (key == k) + count k xs
  appended k xs = omega (arith, count-append k xs (key ∷ []))

  locked_read-Effect :
      succeeded (try_now r_trylock (s.table key)).outcome ≡ true → Effect s (locked_read s key)
  locked_read-Effect won = record {
    locks = λ k r w a.
        set_lock-Agrees s.table key k _ a
          (λ e h.
            Agrees-cast _ (won_read (s.table key) h won)
              (ground (arith, appended k s.tx.r_lock_list)) refl)
          (λ e. (ground (arith, appended k s.tx.r_lock_list), refl));
    vals = λ k. ground arith;
    held = λ k. omega (arith, appended k s.tx.r_lock_list);
    matched = record {
      reads = map-append _ _ _ ∙ ap (λ (l : List ℕ). l ++ key ∷ []) m.reads;
      writes = m.writes;
    };
    current =
        All-append _ s.tx.read_set _
          (All-map _ _
            (λ e.
              IsCurrent-mono s (locked_read s key) e (ground arith)
                (omega (arith, appended e.key s.tx.r_lock_list)))
            s.tx.read_set c)
          ((ground (arith, appended key s.tx.r_lock_list), ground arith), tt);
    same_val = refl;
  }

  locked_write-Effect :
      (load : Payload → Payload → Payload)
      → succeeded (try_now w_trylock (s.table key)).outcome ≡ true
      → Effect s (locked_write s key load)
  locked_write-Effect load won = record {
    locks = λ k r w a.
        set_lock-Agrees s.table key k _ a
          (λ e h.
            Agrees-cast _ (won_write (s.table key) h won) refl
              (ground (arith, appended k s.tx.w_lock_list)))
          (λ e. (refl, ground (arith, appended k s.tx.w_lock_list)));
    vals = λ k. ground arith;
    held = λ k. omega (arith, appended k s.tx.w_lock_list);
    matched = record { reads = m.reads; writes = ap (λ (l : List ℕ). l ++ key ∷ []) m.writes };
    current =
        All-map _ _
          (λ e.
            IsCurrent-mono s (locked_write s key load) e (ground arith)
              (omega (arith, appended e.key s.tx.w_lock_list)))
          s.tx.read_set c;
    same_val = refl;
  }

  upgraded-Effect :
      contains key s.tx.r_lock_list ≡ true
      → succeeded (try_now tryupgrade (s.table key)).outcome ≡ true
      → Effect s (upgraded s key)
  upgraded-Effect found won = record {
    locks = λ k r w a.
        set_lock-Agrees s.table key k _ a
          (λ e h.
            Agrees-cast _
              (won_upgrade (s.table key) {r = count k (erase key s.tx.r_lock_list) + r}
                (Agrees-cast _ h (ground (arith, moved k)) refl) won)
              refl (ground (arith, appended k s.tx.w_lock_list)))
          (λ e. (ground (arith, moved k), ground (arith, appended k s.tx.w_lock_list)));
    vals = λ k. ground arith;
    held = λ k. omega (arith, appended k s.tx.w_lock_list, moved k);
    matched = record {
      reads = keys-erase_key key s.tx.read_set ∙ ap (erase key) m.reads;
      writes = ap (λ (l : List ℕ). l ++ key ∷ []) m.writes;
    };
    current = All-erase_key _ key s.tx.read_set (
        All-map _ _
          (λ e.
            IsCurrent-mono s (upgraded s key) e (ground arith)
              (omega (arith, appended e.key s.tx.w_lock_list, moved e.key)))
          s.tx.read_set c);
    same_val = refl;
  }
    where
      moved :
          (k : ℕ)
          → count k (erase key s.tx.r_lock_list) + one_if (key == k) ≡ count k s.tx.r_lock_list
      moved k = count-erase key k s.tx.r_lock_list found

  read_key-Effect : Effect s (read_key s key)
  unfolding read_key
  read_key-Effect =
      elim (Bool-cases (contains key s.tx.write_set || contains key (keys s.tx.read_set))) [
        | inl own ↦ rw own (unchanged s m c)
        | inr fresh ↦ elim (Bool-cases (succeeded (try_now r_trylock (s.table key)).outcome)) [
          | inl won ↦ rw (fresh, won) (locked_read-Effect won)
          | inr lost ↦ rw (fresh, lost) (aborted_Effect s m c)
        ]
      ]

  lock_write-Effect : (load : Payload → Payload → Payload) → Effect s (lock_write load s key)
  unfolding lock_write
  lock_write-Effect load = elim (Bool-cases (succeeded (try_now w_trylock (s.table key)).outcome)) [
    | inl won ↦ rw won (locked_write-Effect load won)
    | inr lost ↦ rw lost (aborted_Effect s m c)
  ]

  -- The lock of a key in the read set is in the lock list, so the upgrade moves it.
  upgrade_read-Effect : contains key (keys s.tx.read_set) ≡ true → Effect s (upgrade_read s key)
  unfolding upgrade_read
  upgrade_read-Effect old =
      let found : contains key s.tx.r_lock_list ≡ true = rw (← m.reads) old in
      elim (Bool-cases (succeeded (try_now tryupgrade (s.table key)).outcome)) [
        | inl won ↦ rw (won, found) (upgraded-Effect found won)
        | inr lost ↦ rw lost (aborted_Effect s m c)
      ]

  -- `write` and `readWrite` differ in `load` only.
  written_Effect :
      (load : Payload → Payload → Payload)
      → Effect s (
          if contains key s.tx.write_set
          then s
          else if contains key (keys s.tx.read_set)
          then upgrade_read s key
          else lock_write load s key)
  written_Effect load = elim (Bool-cases (contains key s.tx.write_set)) [
    | inl own ↦ rw own (unchanged s m c)
    | inr free ↦ elim (Bool-cases (contains key (keys s.tx.read_set))) [
      | inl old ↦ rw (free, old) (upgrade_read-Effect old)
      | inr fresh ↦ rw (free, fresh) (lock_write-Effect load)
    ]
  ]

-- Every operation of a transaction.
pub execute-Effect :
    (s : State) (p : Procedure)
    → IsMatched s.tx
    → All (IsCurrent s.table s.tx) s.tx.read_set
    → Effect s (execute s p)
unfolding execute
execute-Effect s p m c = dispatch p.ope
  where
    dispatch : (o : Ope) → Effect s (execute s (record p { ope = o }))
    dispatch read = read_key-Effect s p.key m c
    dispatch write = written_Effect s p.key m c (λ _ old. old)
    dispatch read_modify_write = written_Effect s p.key m c (λ v _. v)
