-- ===== src/Silo/World.antt =====
-- What a transaction of Silo knows before it is decided, in terms of what it can see of the tuples and
-- of the history.
use ccbench.Common.{ℕ, ◌+◌, ◌^◌, ◌≤◌, ◌<◌, ◌≡◌, ◌⊎◌, false, List, [], ◌∷◌, ◌++◌, All, count}
use ccbench.Procedure.{Payload}
use ccbench.Silo.Tidword.{Tidword, version}
use ccbench.Silo.Operations.{ReadElement, WriteElement, TxnExecutor, write_keys}
use ccbench.Silo.Workers.{
  Phase, idle, leading, running, reading, copied, writing, locking, fenced, validating, unlocking,
  storing, releasing,
}

-- The version of each tuple, its payload and timestamps, how many workers have a decided write of it that
-- its word does not show, and the database at each timestamp.
pub record World : Type 0 where
  pub ver : ℕ → ℕ
  pub wts : ℕ → ℕ
  pub rts : ℕ → ℕ
  pub val : ℕ → Payload
  pub pend : ℕ → ℕ
  pub at : ℕ → ℕ → Payload

-- A word and a payload that have been found in a tuple: while the tuple has this version and no pending
-- write, it has this payload.
pub record IsFound (ω : World) (k : ℕ) (v : Tidword) (val : Payload) : Type 0 where
  pub bound : version v ≤ ω.ver k
  pub value : version v ≡ ω.ver k → ω.pend k ≡ 0 → val ≡ ω.val k

abbrev pub IsKnown : World → ReadElement → Type 0
IsKnown ω e = IsFound ω e.key e.tidword e.val

abbrev pub AllKnown : World → List ReadElement → Type 0
AllKnown ω = All (IsKnown ω)

-- With a ticket: while the tuple has this version, nobody has stored to it after the ticket.
pub record IsDated (ω : World) (c : ℕ) (e : ReadElement) : Type 0 where
  pub known : IsKnown ω e
  pub dated : version e.tidword ≡ ω.ver e.key → ω.wts e.key ≤ c

-- An element that has been validated: its payload is that of the database at the ticket, and stays so,
-- since nobody who holds the tuple has an earlier ticket, or the worker itself holds it.
pub record IsChecked (ω : World) (c : ℕ) (own : List ℕ) (e : ReadElement) : Type 0 where
  pub value : ω.at c e.key ≡ e.val
  pub lasting : (c ≤ ω.rts e.key) ⊎ (1 ≤ count e.key own)

-- There is room for a later TID.
abbrev pub HasRoom : TxnExecutor → Type 0
HasRoom x = (x.max_wset.tid + 1 < 2 ^ 29) × (x.max_rset.tid + 1 < 2 ^ 29)

-- The elements carry no payload of their own.
abbrev pub ArePlain : List WriteElement → Type 0
ArePlain = All (λ (e : WriteElement). e.val ≡ [])

-- The versions of what is locked.
abbrev pub AreBelow : World → ℕ → List WriteElement → Type 0
AreBelow ω bound = All (λ (e : WriteElement). ω.ver e.key ≤ bound)

pub record IsValidating (ω : World) (x : TxnExecutor) (c : ℕ) (checked rest : List ReadElement)
    : Type 0 where
  pub split : checked ++ rest ≡ x.read_set
  pub done : All (IsChecked ω c (write_keys x.write_set)) checked
  pub dated : All (IsDated ω c) rest
  pub room : HasRoom x
  pub plain : ArePlain x.write_set
  pub below : AreBelow ω (version x.max_wset) x.write_set

pub record IsLocking (ω : World) (x : TxnExecutor) (done rest : List WriteElement) : Type 0 where
  pub split : done ++ rest ≡ x.write_set
  pub known : AllKnown ω x.read_set
  pub room : HasRoom x
  pub plain : ArePlain x.write_set
  pub below : AreBelow ω (version x.max_wset) done

pub record IsFenced (ω : World) (x : TxnExecutor) (c : ℕ) : Type 0 where
  pub dated : All (IsDated ω c) x.read_set
  pub room : HasRoom x
  pub plain : ArePlain x.write_set
  pub below : AreBelow ω (version x.max_wset) x.write_set

-- The read phase.
pub record IsRunning (ω : World) (x : TxnExecutor) : Type 0 where
  pub known : AllKnown ω x.read_set
  pub room : HasRoom x
  pub plain : ArePlain x.write_set

-- What is still to be stored will be later than what the tuples show.
pub record IsStoring (ω : World) (x : TxnExecutor) (rest : List WriteElement) : Type 0 where
  pub plain : ArePlain rest
  pub later : All (λ (e : WriteElement). ω.ver e.key < version x.mrctid) rest
  pub unlocks : x.mrctid.lock ≡ false

abbrev pub IsNext : World → List WriteElement → Payload → Type 0
IsNext ω [] val = Unit
IsNext ω (e ∷ rest) val = ω.val e.key ≡ val

abbrev pub IsSettled : World → Phase → TxnExecutor → ℕ → Type 0
IsSettled ω idle x c = (x.read_set ≡ []) × (x.write_set ≡ [])
IsSettled ω (leading thread e) x c = (x.read_set ≡ []) × (x.write_set ≡ [])
IsSettled ω (running todo) x c = IsRunning ω x
IsSettled ω (reading key b todo v) x c = IsRunning ω x × (version v ≤ ω.ver key)
IsSettled ω (copied key b todo v val) x c = IsRunning ω x × IsFound ω key v val
IsSettled ω (writing key todo) x c = IsRunning ω x
IsSettled ω (locking done rest) x c = IsLocking ω x done rest
IsSettled ω (fenced epoch) x c = IsFenced ω x c
IsSettled ω (validating checked rest) x c = IsValidating ω x c checked rest
IsSettled ω (unlocking rest) x c = Unit
IsSettled ω (storing rest) x c = IsStoring ω x rest
IsSettled ω (releasing rest) x c = IsStoring ω x rest × IsNext ω rest x.write_val

-- How the steps of other workers change what can be seen of a tuple.
pub record Grows (a b : World) (k : ℕ) : Type 0 where
  pub ver : a.ver k ≤ b.ver k
  pub rts : a.rts k ≤ b.rts k
  pub same_wts : a.ver k ≡ b.ver k → b.wts k ≤ a.wts k
  pub past : (ts : ℕ) → ts ≤ a.rts k → b.at ts k ≡ a.at ts k
  pub payload : a.ver k ≡ b.ver k → b.pend k ≡ 0 → (a.pend k ≡ 0) × (b.val k ≡ a.val k)

-- And of a tuple that the worker itself holds.
pub record Keeps (a b : World) (k : ℕ) : Type 0 where
  pub ver : b.ver k ≡ a.ver k
  pub val : b.val k ≡ a.val k
  pub at : (ts : ℕ) → b.at ts k ≡ a.at ts k
