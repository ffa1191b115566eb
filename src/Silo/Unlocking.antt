-- ===== src/Silo/Unlocking.antt =====
-- `lockWriteSet` and `unlockWriteSet` of silo/transaction.cc undo each other.
use ccbench.Common.{
  ℕ, ◌≡◌, refl, sym, ap, subst, ◌∙◌, Bool, true, false, ◌==◌, ◌||◌, ◌⊎◌, if◌then◌else◌, List, [],
  ◌∷◌, ◌++◌, contains, arith, Bool-cases, inl, inr, ==_iff,
}
use mathlib.Core.List.{append-nil, append_assoc}
use ccbench.Common.Family.{assign}
use ccbench.Silo.Tidword.{Tidword, max_word}
use ccbench.Silo.Operations.{
  Tuple, Table, WriteElement, write_keys, set_lock, unlock_write_set, lock_write_set, Locked,
}

pub unlock_write_set_lem :
    (ws : List WriteElement) (t : Table) (k : ℕ)
    → unlock_write_set ws t k ≡ (if contains k (write_keys ws) then set_lock false (t k) else t k)
unfolding unlock_write_set
unlock_write_set_lem [] t k = refl
unlock_write_set_lem (w ∷ ws) t k = unlock_write_set_lem ws _ k ∙ by_key (Bool-cases (w.key == k))
  where
    u : Table
    u = assign t w.key (set_lock false (t w.key))

    by_key :
        ((w.key == k) ≡ true) ⊎ ((w.key == k) ≡ false)
        → (if contains k (write_keys ws) then set_lock false (u k) else u k)
          ≡ (if contains k (write_keys (w ∷ ws)) then set_lock false (t k) else t k)
    by_key (inl here) = rw here (ground (arith, ap t ((==_iff w.key k).0 here)))
    by_key (inr other) = rw other refl

-- From `t₀` exactly the tuples of `before` have been locked, which were free.
pub record IsLocked (before : List WriteElement) (start t : Table) (k : ℕ) : Type 0 where
  pub now : t k ≡ (if contains k (write_keys before) then set_lock true (start k) else start k)
  pub free : contains k (write_keys before) ≡ true → (start k).tidword.lock ≡ false

pub unlock_write_set-restores :
    (ws : List WriteElement) (start t : Table) (k : ℕ)
    → IsLocked ws start t k
    → unlock_write_set ws t k ≡ start k
unlock_write_set-restores ws start t k h =
    unlock_write_set_lem ws t k ∙ by_key (Bool-cases (contains k (write_keys ws)))
  where
    by_key :
        (contains k (write_keys ws) ≡ true) ⊎ (contains k (write_keys ws) ≡ false)
        → (if contains k (write_keys ws) then set_lock false (t k) else t k) ≡ start k
    by_key (inl mine) = ground (arith, h.now, h.free mine)
    by_key (inr other) = ground (arith, h.now)

contains-append :
    (k : ℕ) (ws : List WriteElement) (w : WriteElement)
    → contains k (write_keys (ws ++ w ∷ [])) ≡ (contains k (write_keys ws) || (w.key == k))
contains-append k [] w = ground arith
contains-append k (v ∷ ws) w = ground (arith, contains-append k ws w)

next-IsLocked :
    (before : List WriteElement) (w : WriteElement) (start t : Table)
    → (t w.key).tidword.lock ≡ false
    → ((k : ℕ) → IsLocked before start t k)
    → (k : ℕ) → IsLocked (before ++ w ∷ []) start (assign t w.key (set_lock true (t w.key))) k
next-IsLocked before w start t free h k = elim (Bool-cases (w.key == k)) [
  | inl here ↦
      let at_key : t w.key ≡ start k =
        ap t ((==_iff w.key k).0 here)
        ∙ was k (subst (λ (j : ℕ). (t j).tidword.lock ≡ false) ((==_iff w.key k).0 here) free) in
      record {
        now = rw here (ground (arith, contains-append k before w, ap (set_lock true) at_key));
        free = λ c. ap (λ (v : Tuple). v.tidword.lock) (sym at_key) ∙ free;
      }
  | inr other ↦ record {
    now = rw other (ground (arith, contains-append k before w, (h k).now));
    free = λ c. (h k).free (ground (arith, contains-append k before w));
  }
]
  where
    was : (k : ℕ) → (t k).tidword.lock ≡ false → t k ≡ start k
    was k f = ground (arith, (h k).now)

-- What `lockWriteSet` leaves: after a success exactly the write set is locked, and after a failure
-- everything is as before.
pub lock_write_set_lem :
    (before todo : List WriteElement) (start t : Table) (m : Tidword)
    → ((k : ℕ) → IsLocked before start t k)
    → (k : ℕ)
    → ((lock_write_set before todo t m).success ≡ false
        → (lock_write_set before todo t m).table k ≡ start k)
      × ((lock_write_set before todo t m).success ≡ true
          → IsLocked (before ++ todo) start (lock_write_set before todo t m).table k)
unfolding lock_write_set
lock_write_set_lem before [] start t m h k = (
  λ f. cc,
  λ e. subst (λ (l : List WriteElement). IsLocked l start t k) (sym (append-nil before)) (h k),
)
lock_write_set_lem before (w ∷ ws) start t m h k =
    by_lock
      (λ free.
        lock_write_set_lem (before ++ w ∷ []) ws start _ (max_word m (t w.key).tidword)
          (next-IsLocked before w start t free h) k)
      (t w.key).tidword.lock refl
  where
    P : Locked → Type 0
    P l =
        (l.success ≡ false → l.table k ≡ start k)
        × (l.success ≡ true → IsLocked (before ++ w ∷ ws) start l.table k)

    failed : Locked
    failed = record { table = unlock_write_set before t; max_wset = m; success = false }

    rest : Locked
    rest =
        lock_write_set (before ++ w ∷ []) ws (assign t w.key (set_lock true (t w.key)))
          (max_word m (t w.key).tidword)

    Q : Locked → Type 0
    Q l =
        (l.success ≡ false → l.table k ≡ start k)
        × (l.success ≡ true → IsLocked ((before ++ w ∷ []) ++ ws) start l.table k)

    by_lock :
        ((t w.key).tidword.lock ≡ false → Q rest)
        → (b : Bool) → (t w.key).tidword.lock ≡ b
        → P (if b then failed else rest)
    by_lock q true taken = (λ f. unlock_write_set-restores before start t k (h k), λ s. cc)
    by_lock q false free = (
      (q free).0,
      λ s.
          subst (λ (ws : List WriteElement). IsLocked ws start rest.table k)
            (append_assoc before (w ∷ []) ws) ((q free).1 s),
    )
