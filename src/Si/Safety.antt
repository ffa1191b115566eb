-- ===== src/Si/Safety.antt =====
-- What si/ guarantees in every reachable state, for any number of workers and any interleaving, in the
-- builds with CCTR_ON and with CCTR_TW.
use ccbench.Common.{
  ℕ, ◌^◌, ◌≤◌, ◌<◌, ◌≡◌, ◌≢◌, ◌⊎◌, subst, Bool, List, [], ◌∷◌, All, count, arith, Bool-cases, ◌==◌,
  inl, inr, ==_iff,
}
use ccbench.Procedure.{Payload}
use ccbench.Si.Types.{Shared, SetElement, TxExecutor, keys, version}
use ccbench.Si.Workers.{
  Phase, idle, beginning, running, loaded, searching, copying, writing, examining, conflicting,
  climbing, testing, linking, stamping, paying, releasing, ending, aborting, faulted,
}
use ccbench.Si.System.{System, Reach}
use ccbench.Si.Invariant.{IsCommitted, IsFlying, IsOwned, IsSeen, IsSettled}
use ccbench.Si.Steps.{Reach-Inv}

-- What a worker has written and has neither committed nor aborted.
abbrev pub updates : Phase → TxExecutor → List SetElement
updates idle x = []
updates (beginning i todo) x = []
updates (stamping rest) x = rest
updates (paying rest) x = rest
updates (releasing rest) x = rest
updates ending x = []
updates (aborting rest) x = rest
updates faulted x = []
updates _ x = x.write_set

settled-owned :
    (g : Shared) (i : ℕ) (ph : Phase) (x : TxExecutor)
    → IsSettled g i ph x
    → All (IsOwned g i x.txid) (updates ph x)
settled-owned g i idle x h = tt
settled-owned g i (beginning j todo) x h = tt
settled-owned g i (running todo) x h = h.written.owned
settled-owned g i (loaded key b todo v) x h = h.0.written.owned
settled-owned g i (searching key b todo v) x h = h.0.written.owned
settled-owned g i (copying key b todo v) x h = h.0.written.owned
settled-owned g i (writing key todo) x h = h.written.owned
settled-owned g i (examining key todo e) x h = h.0.written.owned
settled-owned g i (conflicting key todo e) x h = h.0.written.owned
settled-owned g i (climbing key todo e v) x h = h.0.written.owned
settled-owned g i (testing key todo e v) x h = h.0.written.owned
settled-owned g i (linking key todo e v) x h = h.0.written.owned
settled-owned g i (stamping rest) x h = h.written.owned
settled-owned g i (paying rest) x h = h.0.written.owned
settled-owned g i (releasing rest) x h = h.0.written.owned
settled-owned g i ending x h = tt
settled-owned g i (aborting rest) x h = h.0.owned
settled-owned g i faulted x h = tt

settled-seen :
    (g : Shared) (i : ℕ) (ph : Phase) (x : TxExecutor)
    → IsSettled g i ph x
    → All (IsSeen g x.txid) x.read_set
settled-seen g i idle x h = rw h.0 tt
settled-seen g i (beginning j todo) x h = rw (h.0.0) tt
settled-seen g i (running todo) x h = h.seen
settled-seen g i (loaded key b todo v) x h = h.0.seen
settled-seen g i (searching key b todo v) x h = h.0.seen
settled-seen g i (copying key b todo v) x h = h.0.seen
settled-seen g i (writing key todo) x h = h.seen
settled-seen g i (examining key todo e) x h = h.0.seen
settled-seen g i (conflicting key todo e) x h = h.0.seen
settled-seen g i (climbing key todo e v) x h = h.0.seen
settled-seen g i (testing key todo e v) x h = h.0.seen
settled-seen g i (linking key todo e v) x h = h.0.seen
settled-seen g i (stamping rest) x h = h.seen
settled-seen g i (paying rest) x h = h.0.seen
settled-seen g i (releasing rest) x h = h.0.seen
settled-seen g i ending x h = rw (h.0) tt
settled-seen g i (aborting rest) x h = h.2
settled-seen g i faulted x h = elim h [ ]

-- Some version of `k` is among them.
owned-found :
    (g : Shared) (i txid k : ℕ) (ws : List SetElement)
    → All (IsOwned g i txid) ws
    → 1 ≤ count k (keys ws)
    → (v : ℕ) × IsOwned g i txid (record { key = k; ver = v })
owned-found g i txid k [] h c = absurd (omega (arith, c))
owned-found g i txid k (e ∷ ws) h c = elim (Bool-cases (e.key == k)) [
  | inl here ↦ (
    e.ver,
    subst (λ (j : ℕ). IsOwned g i txid (record { key = j; ver = e.ver })) ((==_iff e.key k).0 here)
        h.0,
  )
  | inr there ↦ owned-found g i txid k ws h.1 (ground (arith, c, there))
]

module _ {cctr_on : Bool} {n : ℕ} {db vals : ℕ → Payload} {s : System}
    (r : Reach cctr_on n db vals s) (small : s.clock < 2 ^ 32) where
  -- Within fewer than 2^32 steps, of any two committed versions of a tuple one carries a commit timestamp
  -- that is not above the begin timestamp, `txid_`, of the transaction that wrote the other; and neither
  -- begin timestamp is above the commit timestamp of the same transaction.
  pub writers_apart :
      (k u v : ℕ)
      → IsCommitted (version s.shared k u)
      → IsCommitted (version s.shared k v)
      → u ≢ v
      → ((version s.shared k u).began ≤ (version s.shared k u).cstamp)
        × ((version s.shared k v).began ≤ (version s.shared k v).cstamp)
        × (((version s.shared k u).cstamp ≤ (version s.shared k v).began)
            ⊎ ((version s.shared k v).cstamp ≤ (version s.shared k u).began))
  writers_apart k u v hu hv ne =
      let t = (Reach-Inv r small).tuples k in
      ((t.stamped u hu).0, (t.stamped v hv).0, t.apart u v hu hv ne)

  -- Within fewer than 2^32 steps, if a worker has written a tuple and neither committed nor aborted the
  -- version, this is the latest of the tuple, in flight, the worker's own and begun at its `txid_`, and no
  -- other worker has such a version of the tuple.
  pub update_exclusive :
      (i k : ℕ)
      → 1 ≤ count k (keys (updates (s.workers i).phase (s.workers i).tx))
      → IsFlying (version s.shared k (s.shared.table k).latest)
        × ((version s.shared k (s.shared.table k).latest).owner ≡ i)
        × ((version s.shared k (s.shared.table k).latest).began ≡ (s.workers i).tx.txid)
        × ((j : ℕ) → j ≢ i → count k (keys (updates (s.workers j).phase (s.workers j).tx)) ≡ 0)
  update_exclusive i k h = (
    mine.flying,
    mine.owner,
    mine.began,
    λ j ne. ground (
      arith,
      λ (c : 1 ≤ count k (keys (updates (s.workers j).phase (s.workers j).tx))).
          ne (omega (arith, mine.owner, (latest j c).owner)),
    ),
  )
    where
      latest :
          (j : ℕ)
          → 1 ≤ count k (keys (updates (s.workers j).phase (s.workers j).tx))
          → IsOwned s.shared j
              (s.workers j).tx.txid
              (record { key = k; ver = (s.shared.table k).latest })
      latest j c =
          let inv = Reach-Inv r small in
          let (v, own) =
            owned-found s.shared j (s.workers j).tx.txid k _
              (settled-owned s.shared j (s.workers j).phase (s.workers j).tx (inv.settled j)) c in
          subst (λ (u : ℕ). IsOwned s.shared j (s.workers j).tx.txid (record { key = k; ver = u }))
            ((inv.tuples k).flying v own.flying) own

      mine :
          IsOwned s.shared i
            (s.workers i).tx.txid
            (record { key = k; ver = (s.shared.table k).latest })
      mine = latest i h

  -- Within fewer than 2^32 steps, every version in the read set of a worker is committed, with a commit
  -- timestamp that is not above the worker's `txid_`.
  pub reads_committed :
      (i : ℕ) → All (IsSeen s.shared (s.workers i).tx.txid) (s.workers i).tx.read_set
  reads_committed i =
      settled-seen s.shared i (s.workers i).phase (s.workers i).tx ((Reach-Inv r small).settled i)

  -- Within fewer than 2^32 steps, no worker runs off the end of the committed versions of a tuple, where
  -- `tread` and `twrite` would stop the program by ERR or follow a null pointer.
  pub never_faulted : (i : ℕ) → (s.workers i).phase ≢ faulted
  never_faulted i e =
      subst (λ (ph : Phase). IsSettled s.shared i ph (s.workers i).tx) e
        ((Reach-Inv r small).settled i)
