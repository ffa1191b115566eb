-- ===== src/Tictoc/World.antt =====
-- What a transaction of TicToc knows before it is validated, in terms of what it can see of the tuples
-- and of the history.
use ccbench.Common.{
  ℕ, ◌^◌, ◌≤◌, ◌<◌, ◌≡◌, sym, ◌∙◌, ◌⊎◌, inl, inr, List, [], ◌∷◌, ◌++◌, All, All-map, arith, count,
}
use ccbench.Procedure.{Payload}
use ccbench.Tictoc.Types.{TsWord, rts, SetElement, WriteElement, TxExecutor, write_keys}
use ccbench.Tictoc.Workers.{
  Phase, idle, running, reading, copied, writing, locking, validating, unlocking, storing, stored,
  Worker,
}

-- The timestamps of each tuple, its payload, how many workers have validated a write of it that its
-- word does not show, and the database at each timestamp.
pub record World : Type 0 where
  pub wts : ℕ → ℕ
  pub rts : ℕ → ℕ
  pub val : ℕ → Payload
  pub pend : ℕ → ℕ
  pub at : ℕ → ℕ → Payload

-- The tuples that a worker has locked.
abbrev pub held : Phase → List WriteElement → List ℕ
held (locking done rest) ws = write_keys done
held (validating checked rest) ws = write_keys ws
held (unlocking rest) ws = write_keys rest
held (storing rest) ws = write_keys rest
held (stored rest) ws = write_keys rest
held _ ws = []

abbrev pub held_on : ℕ → Worker → ℕ
held_on k w = count k (held w.phase w.tx.write_set)

-- Those that it will store to.
abbrev pub pending : Phase → List ℕ
pending (storing rest) = write_keys rest
pending (stored rest) = write_keys rest
pending _ = []

abbrev pub pending_on : ℕ → Worker → ℕ
pending_on k w = count k (pending w.phase)

-- Those that it has locked and will not unlock without storing, unless it fails.
abbrev pub claims : Phase → List WriteElement → List ℕ
claims (unlocking rest) ws = []
claims ph ws = held ph ws

abbrev pub claims_on : ℕ → Worker → ℕ
claims_on k w = count k (claims w.phase w.tx.write_set)

-- An element of the read set: the payload is that of the database from `wts` to `rts` of its word, and
-- up to the `rts` of the tuple while this has the same `wts`.
pub record IsKnown (ω : World) (e : SetElement) : Type 0 where
  pub wts_bound : e.tsw.wts ≤ ω.wts e.key
  pub rts_bound : rts e.tsw ≤ ω.rts e.key
  pub value :
      (ts : ℕ)
      → e.tsw.wts ≤ ts
      → (ts ≤ rts e.tsw) ⊎ ((e.tsw.wts ≡ ω.wts e.key) × (ts ≤ ω.rts e.key))
      → ω.at ts e.key ≡ e.val

-- An element that has been validated for a timestamp: its payload is that of the database then, and
-- stays so, since the tuple cannot be written at an earlier time or is locked by the worker itself.
pub record IsChecked (ω : World) (c : ℕ) (own : List ℕ) (e : SetElement) : Type 0 where
  pub value : ω.at c e.key ≡ e.val
  pub lasting : (c ≤ ω.rts e.key) ⊎ (1 ≤ count e.key own)

-- The loop of `read`.
abbrev pub IsLoaded : World → ℕ → TsWord → Type 0
IsLoaded ω key v1 = (v1.wts ≤ ω.wts key) × (rts v1 ≤ ω.rts key) × (v1.delta < 2 ^ 15)

abbrev pub IsCopied : World → ℕ → TsWord → Payload → Type 0
IsCopied ω key v1 val = v1.wts ≡ ω.wts key → ω.pend key ≡ 0 → val ≡ ω.val key

abbrev pub AllKnown : World → List SetElement → Type 0
AllKnown ω = All (IsKnown ω)

pub record IsValidating (ω : World) (x : TxExecutor) (checked rest : List SetElement) : Type 0 where
  pub split : checked ++ rest ≡ x.read_set
  pub done : All (IsChecked ω x.commit_ts (write_keys x.write_set)) checked
  pub known : AllKnown ω rest
  pub above : All (λ (e : SetElement). e.tsw.wts ≤ x.commit_ts) rest

abbrev pub IsSettled : World → Phase → TxExecutor → Type 0
IsSettled ω idle x = (x.read_set ≡ []) × (x.write_set ≡ [])
IsSettled ω (running todo) x = AllKnown ω x.read_set
IsSettled ω (reading key b todo v1) x = AllKnown ω x.read_set × IsLoaded ω key v1
IsSettled ω (copied key b todo v1) x =
    AllKnown ω x.read_set × IsLoaded ω key v1 × IsCopied ω key v1 x.return_val
IsSettled ω (writing key todo) x = AllKnown ω x.read_set
IsSettled ω (locking done rest) x = AllKnown ω x.read_set × (done ++ rest ≡ x.write_set)
IsSettled ω (validating checked rest) x = IsValidating ω x checked rest
IsSettled ω (unlocking rest) x = Unit
IsSettled ω (storing rest) x = Unit
IsSettled ω (stored []) x = Unit
IsSettled ω (stored (e ∷ rest)) x = ω.val e.key ≡ x.write_val

-- How the steps of other workers change what can be seen of a tuple.
pub record Grows (a b : World) (k : ℕ) : Type 0 where
  pub wts : a.wts k ≤ b.wts k
  pub rts : a.rts k ≤ b.rts k
  pub past : (ts : ℕ) → ts ≤ a.rts k → b.at ts k ≡ a.at ts k
  pub stay :
      a.wts k ≡ b.wts k → (ts : ℕ) → a.wts k ≤ ts → ts ≤ b.rts k → b.at ts k ≡ a.at (a.wts k) k
  pub payload : a.wts k ≡ b.wts k → b.pend k ≡ 0 → (a.pend k ≡ 0) × (b.val k ≡ a.val k)

module _ {a b : World} (g : (k : ℕ) → Grows a b k) (range : (k : ℕ) → a.wts k ≤ a.rts k) where
  pub IsKnown-grows : (e : SetElement) → IsKnown a e → IsKnown b e
  IsKnown-grows e h = record {
    wts_bound = omega (arith, h.wts_bound, (g e.key).wts);
    rts_bound = omega (arith, h.rts_bound, (g e.key).rts);
    value = λ ts lo up. elim up [
      | inl old ↦ (g e.key).past ts (omega (arith, h.rts_bound)) ∙ h.value ts lo (inl old)
      | inr (same, hi) ↦
          let still : a.wts e.key ≡ b.wts e.key = omega (arith, h.wts_bound, (g e.key).wts) in
          (g e.key).stay still ts (omega (arith, same, still)) hi
          ∙ h.value (a.wts e.key) h.wts_bound (inr (omega (arith, same, still), range e.key))
    ];
  }

  pub IsSettled-grows :
      (ph : Phase) (x : TxExecutor)
      → ((k ts : ℕ)
          → 1 ≤ count k (claims ph x.write_set)
          → (b.at ts k ≡ a.at ts k) × (b.val k ≡ a.val k))
      → IsSettled a ph x
      → IsSettled b ph x
  IsSettled-grows idle x own h = h
  IsSettled-grows (running todo) x own h = All-map _ _ IsKnown-grows x.read_set h
  IsSettled-grows (reading key c todo v1) x own h = (
    All-map _ _ IsKnown-grows x.read_set h.0,
    (omega (arith, h.1, (g key).wts), omega (arith, h.1, (g key).rts), h.1.2),
  )
  IsSettled-grows (copied key c todo v1) x own (known, loaded, is_copied) = (
    All-map _ _ IsKnown-grows x.read_set known,
    (omega (arith, loaded, (g key).wts), omega (arith, loaded, (g key).rts), loaded.2),
    λ same quiet.
        let still : a.wts key ≡ b.wts key = omega (arith, loaded, (g key).wts, same) in
        let (before, val) = (g key).payload still quiet in
        is_copied (omega (arith, same, still)) before ∙ sym val,
  )
  IsSettled-grows (writing key todo) x own h = All-map _ _ IsKnown-grows x.read_set h
  IsSettled-grows (locking done rest) x own (known, split) =
      (All-map _ _ IsKnown-grows x.read_set known, split)
  IsSettled-grows (validating checked rest) x own h = record {
    split = h.split;
    done =
        All-map _ _
          (λ e c. record {
            value = elim c.lasting [
              | inl before ↦ (g e.key).past x.commit_ts before ∙ c.value
              | inr mine ↦ (own e.key x.commit_ts mine).0 ∙ c.value
            ];
            lasting = elim c.lasting [
              | inl before ↦ inl (omega (arith, (g e.key).rts))
              | inr mine ↦ inr mine
            ];
          })
          checked h.done;
    known = All-map _ _ IsKnown-grows rest h.known;
    above = h.above;
  }
  IsSettled-grows (unlocking rest) x own h = tt
  IsSettled-grows (storing rest) x own h = tt
  IsSettled-grows (stored []) x own h = tt
  IsSettled-grows (stored (e ∷ rest)) x own h = (own e.key 0 (ground arith)).1 ∙ h
