-- ===== src/Timestamps/History.antt =====
-- Committed transactions in the order of their timestamps.
use ccbench.Common.{
  ℕ, ◌≤◌, ◌<◌, ◌≡◌, refl, sym, ◌∙◌, Bool, true, false, leb, ◌&&◌, if◌then◌else◌, List, [], ◌∷◌, map,
  contains, All, All-map, All-zip, arith, Bool-cases, inl, inr,
}
use ccbench.Serial.{SetElement, Commit, Db, apply, Serial, nothing, then_commit}

-- A transaction and its timestamp.
pub record Stamped : Type 0 where
  pub ts : ℕ
  pub commit : Commit

-- Into a history that is sorted, the latest first, after those with the same timestamp.
unfoldable pub insert : Stamped → List Stamped → List Stamped
insert c [] = c ∷ []
insert c (e ∷ h) = let rest = insert c h in if leb e.ts c.ts then c ∷ e ∷ h else e ∷ rest

abbrev pub commits : List Stamped → List Commit
commits = map λ e. e.commit

abbrev pub writes : ℕ → Stamped → Bool
writes k e = contains k e.commit.writes

-- The database after the transactions with timestamps up to `ts`.
abbrev pub state_at : Db → List Stamped → ℕ → Db
state_at first [] ts k = first k
state_at first (e ∷ h) ts k =
    if leb e.ts ts && writes k e then e.commit.val else state_at first h ts k

-- The database after all of them.
abbrev pub replay : Db → List Stamped → Db
replay first [] = first
replay first (e ∷ h) = apply e.commit (replay first h)

abbrev pub IsSorted : List Stamped → Type 0
IsSorted [] = Unit
IsSorted (e ∷ h) = All (λ (x : Stamped). x.ts ≤ e.ts) h × IsSorted h

abbrev pub IsBefore : ℕ → List Stamped → Type 0
IsBefore ts h = All (λ (x : Stamped). x.ts ≤ ts) h

pub All-insert :
    (P : Stamped → Type 0) (c : Stamped) (h : List Stamped) → P c → All P h → All P (insert c h)
unfolding insert
All-insert P c [] p b = (p, tt)
All-insert P c (e ∷ h) p b = elim (Bool-cases (leb e.ts c.ts)) [
  | inl last ↦ rw last (p, b)
  | inr earlier ↦ rw earlier (b.0, All-insert P c h p b.1)
]

pub insert-IsBefore :
    (c : Stamped) (h : List Stamped) (ts : ℕ) → c.ts ≤ ts → IsBefore ts h → IsBefore ts (insert c h)
insert-IsBefore c h ts le b = All-insert _ c h le b

pub IsBefore-later :
    (h : List Stamped) (ts later : ℕ) → ts ≤ later → IsBefore ts h → IsBefore later h
IsBefore-later h ts later le b = All-map _ _ (λ e (x : e.ts ≤ ts). omega arith) h b

pub insert-IsSorted : (c : Stamped) (h : List Stamped) → IsSorted h → IsSorted (insert c h)
unfolding insert
insert-IsSorted c [] s = (tt, tt)
insert-IsSorted c (e ∷ h) s = elim (Bool-cases (leb e.ts c.ts)) [
  | inl last ↦ rw last ((ground arith, IsBefore-later h e.ts c.ts (ground (arith, last)) s.0), s)
  | inr earlier ↦
      rw earlier (insert-IsBefore c h e.ts (ground (arith, earlier)) s.0, insert-IsSorted c h s.1)
]

-- Once all transactions count, the state is the whole replay.
pub state_at-replay :
    (first : Db) (h : List Stamped) (ts k : ℕ)
    → IsBefore ts h
    → state_at first h ts k ≡ replay first h k
state_at-replay first [] ts k b = refl
state_at-replay first (e ∷ h) ts k b = ground (arith, state_at-replay first h ts k)

-- If no later transaction writes what `c` writes, `c` determines its keys from its timestamp on.
pub state_at-insert :
    (first : Db) (c : Stamped) (h : List Stamped) (ts k : ℕ)
    → (writes k c ≡ true → All (λ (e : Stamped). writes k e ≡ true → e.ts < c.ts) h)
    → state_at first (insert c h) ts k
      ≡ (if leb c.ts ts && writes k c then c.commit.val else state_at first h ts k)
unfolding insert
state_at-insert first c [] ts k f = refl
state_at-insert first c (e ∷ h) ts k f =
    ground
      (arith, f, state_at-insert first c h ts k (λ w. (f w).1), λ (w : writes k c ≡ true). (f w).0)

-- Each transaction reads what the earlier ones leave.
abbrev pub IsSerial : Db → List Stamped → Type 0
IsSerial first [] = Unit
IsSerial first (e ∷ h) =
    All (λ (x : SetElement). replay first h x.key ≡ x.val) e.commit.reads × IsSerial first h

pub IsSerial-Serial :
    (first : Db) (h : List Stamped) → IsSerial first h → Serial first (commits h) (replay first h)
IsSerial-Serial first [] s = nothing
IsSerial-Serial first (e ∷ h) s = then_commit e.commit (IsSerial-Serial first h s.1) s.0

replay-insert :
    (first : Db) (c : Stamped) (h : List Stamped) (k : ℕ)
    → writes k c ≡ false
    → replay first (insert c h) k ≡ replay first h k
unfolding insert
replay-insert first c [] k f = ground (arith, f)
replay-insert first c (e ∷ h) k f = ground (arith, f, replay-insert first c h k f)

-- A transaction that reads what it finds at its timestamp, and writes what no transaction with its
-- timestamp or a later one has read, extends the serial history.
pub insert-IsSerial :
    (first : Db) (c : Stamped) (h : List Stamped)
    → IsSorted h
    → IsSerial first h
    → All (λ (x : SetElement). state_at first h c.ts x.key ≡ x.val) c.commit.reads
    → All
        (λ (e : Stamped).
          All (λ (x : SetElement). writes x.key c ≡ true → e.ts < c.ts) e.commit.reads)
        h
    → IsSerial first (insert c h)
unfolding insert
insert-IsSerial first c [] s ser rd later = (rd, tt)
insert-IsSerial first c (e ∷ h) s ser rd later = elim (Bool-cases (leb e.ts c.ts)) [
  | inl last ↦ rw last (
    All-map _ _
        (λ x found.
          sym (
            state_at-replay first (e ∷ h) c.ts x.key
              (ground (arith, last), IsBefore-later h e.ts c.ts (ground (arith, last)) s.0))
          ∙ found)
        c.commit.reads rd,
    ser,
  )
  | inr earlier ↦ rw earlier (
    All-zip _ _ _
        (λ x (free : writes x.key c ≡ true → e.ts < c.ts) found.
          replay-insert first c h x.key (ground (arith, earlier, free)) ∙ found)
        e.commit.reads later.0 ser.0,
    insert-IsSerial first c h s.1 ser.1
        (All-map _ _ (λ x found. ground (arith, earlier, found)) c.commit.reads rd) later.1,
  )
]
