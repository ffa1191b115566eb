-- ===== src/Ss2pl/Effects.antt =====
-- What one operation of ss2pl/transaction.cc does to the locks and the sets: the facts that every
-- interleaving needs.
use ccbench.Common.{
  ℕ, suc, ◌+◌, ◌≤◌, ◌≡◌, refl, sym, ◌∙◌, true, false, ◌==◌, List, [], ◌∷◌, ◌++◌, erase, count, All,
  arith, inl, inr, Bool-cases, ==_iff, subst,
}
use mathlib.Core.Path.{subst₂}
use ccbench.Rwlock.{RwLock, r_trylock, w_trylock, tryupgrade}
use ccbench.Rwlock.Agreement.{Agrees, r_trylock-Agrees, w_trylock-Agrees, tryupgrade-Agrees}
use ccbench.Ss2pl.Types.{Payload, Tuple, Table, SetElement, TxExecutor, keys}
use ccbench.Ss2pl.Operations.{State, set_lock, abort_status, succeeded, try_now, erase_key}

-- The lock lists hold just the tuples of the sets, in the same order.
pub record IsMatched (x : TxExecutor) : Type 0 where
  pub reads : keys x.read_set ≡ x.r_lock_list
  pub writes : x.write_set ≡ x.w_lock_list

-- The transaction holds a lock on the element's tuple, which has still the payload that was read.
abbrev pub IsCurrent : Table → TxExecutor → SetElement → Type 0
IsCurrent t x e =
    (1 ≤ count e.key x.r_lock_list + count e.key x.w_lock_list) × ((t e.key).val ≡ e.val)

-- What each operation grants, whatever the other threads hold (`r` read locks, `w` write locks).
pub record Effect (s s' : State) : Type 0 where
  pub locks :
      (k r w : ℕ)
      → Agrees (s.table k).lock (count k s.tx.r_lock_list + r) (count k s.tx.w_lock_list + w)
      → Agrees (s'.table k).lock (count k s'.tx.r_lock_list + r) (count k s'.tx.w_lock_list + w)
  pub vals : (k : ℕ) → (s'.table k).val ≡ (s.table k).val
  pub held :
      (k : ℕ)
      → count k s.tx.r_lock_list + count k s.tx.w_lock_list
        ≤ count k s'.tx.r_lock_list + count k s'.tx.w_lock_list
  pub matched : IsMatched s'.tx
  pub current : All (IsCurrent s'.table s'.tx) s'.tx.read_set
  pub same_val : s'.tx.write_val ≡ s.tx.write_val

module _ (s : State) (m : IsMatched s.tx) (c : All (IsCurrent s.table s.tx) s.tx.read_set) where
  pub unchanged : Effect s s
  unchanged = record {
    locks = λ k r w a. a;
    vals = λ k. refl;
    held = λ k. omega arith;
    matched = m;
    current = c;
    same_val = refl;
  }

  pub aborted_Effect : Effect s (abort_status s)
  aborted_Effect = record {
    locks = λ k r w a. a;
    vals = λ k. refl;
    held = λ k. omega arith;
    matched = record { reads = m.reads; writes = m.writes };
    current = c;
    same_val = refl;
  }

-- Growing the locks and keeping the payloads keeps what was read current.
pub IsCurrent-mono :
    (s s' : State) (e : SetElement)
    → (s'.table e.key).val ≡ (s.table e.key).val
    → count e.key s.tx.r_lock_list + count e.key s.tx.w_lock_list
      ≤ count e.key s'.tx.r_lock_list + count e.key s'.tx.w_lock_list
    → IsCurrent s.table s.tx e
    → IsCurrent s'.table s'.tx e
IsCurrent-mono s s' e v h (held, same) = (omega arith, v ∙ same)

-- A `try` call that returned true took the lock.
module _ (t : Tuple) {r w : ℕ} where
  pub won_read :
      Agrees t.lock r w
      → succeeded (try_now r_trylock t).outcome ≡ true
      → Agrees (try_now r_trylock t).lock (suc r) w
  won_read a h = ground (arith, r_trylock-Agrees t.lock t.lock.counter a)

  pub won_write :
      Agrees t.lock r w
      → succeeded (try_now w_trylock t).outcome ≡ true
      → Agrees (try_now w_trylock t).lock r (suc w)
  won_write a h = ground (arith, w_trylock-Agrees t.lock t.lock.counter a)

  pub won_upgrade :
      Agrees t.lock (suc r) w
      → succeeded (try_now tryupgrade t).outcome ≡ true
      → Agrees (try_now tryupgrade t).lock r (suc w)
  won_upgrade a h = ground (arith, tryupgrade-Agrees t.lock t.lock.counter a)

-- To change the numbers in `Agrees` along equations.
pub Agrees-cast : (l : RwLock) {a b c d : ℕ} → Agrees l a c → a ≡ b → c ≡ d → Agrees l b d
Agrees-cast l h p q = subst₂ (Agrees l) p q h

-- A new lock in one tuple keeps the agreement if it does so in that tuple, and nothing is taken or
-- released elsewhere.
pub set_lock-Agrees :
    (t : Table) (key k : ℕ) (l : RwLock) {a b a' b' : ℕ}
    → Agrees (t k).lock a b
    → (key ≡ k → Agrees (t key).lock a b → Agrees l a' b')
    → ((key == k) ≡ false → (a ≡ a') × (b ≡ b'))
    → Agrees (set_lock t key l k).lock a' b'
set_lock-Agrees t key k l {a} {b} h here there = elim (Bool-cases (key == k)) [
  | inl same ↦
      let e : key ≡ k = (==_iff key k).0 same in
      rw same (here e (subst (λ (x : ℕ). Agrees (t x).lock a b) (sym e) h))
  | inr other ↦ rw other (Agrees-cast (t k).lock h (there other).0 (there other).1)
]

pub keys-erase_key : (k : ℕ) (es : List SetElement) → keys (erase_key k es) ≡ erase k (keys es)
keys-erase_key k [] = refl
keys-erase_key k (e ∷ es) = ground (arith, keys-erase_key k es)

pub All-erase_key {κ} :
    (P : SetElement → Type κ) (k : ℕ) (es : List SetElement) → All P es → All P (erase_key k es)
All-erase_key P k [] h = tt
All-erase_key P k (e ∷ es) h = elim (Bool-cases (e.key == k)) [
  | inl hit ↦ rw hit h.1
  | inr miss ↦ rw miss (h.0, All-erase_key P k es h.1)
]

module _ (s : State) (key : ℕ) where
  abbrev pub locked_read : State
  locked_read = record {
    table = set_lock s.table key (try_now r_trylock (s.table key)).lock;
    tx = record s.tx {
      r_lock_list = s.tx.r_lock_list ++ key ∷ [];
      read_set = s.tx.read_set ++ record { key = key; val = (s.table key).val } ∷ [];
    };
  }

  abbrev pub locked_write : (Payload → Payload → Payload) → State
  locked_write load = record {
    table = set_lock s.table key (try_now w_trylock (s.table key)).lock;
    tx = record s.tx {
      return_val = load (s.table key).val s.tx.return_val;
      w_lock_list = s.tx.w_lock_list ++ key ∷ [];
      write_set = s.tx.write_set ++ key ∷ [];
    };
  }

  abbrev pub upgraded : State
  upgraded = record {
    table = set_lock s.table key (try_now tryupgrade (s.table key)).lock;
    tx = record s.tx {
      write_set = s.tx.write_set ++ key ∷ [];
      w_lock_list = s.tx.w_lock_list ++ key ∷ [];
      r_lock_list = erase key s.tx.r_lock_list;
      read_set = erase_key key s.tx.read_set;
    };
  }
