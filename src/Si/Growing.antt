-- ===== src/Si/Growing.antt =====
-- What a worker of si/ has found stays true under the steps of the others.
use ccbench.Common.{ℕ, ◌≤◌, ◌<◌, ◌≡◌, ◌≢◌, inl, inr, false, List, [], ◌∷◌, All, All-map, arith}
use ccbench.Si.Types.{Shared, SetElement, TxExecutor, version}
use ccbench.Si.Workers.{
  Phase, idle, beginning, running, loaded, searching, copying, writing, examining, conflicting,
  climbing, testing, linking, stamping, paying, releasing, ending, aborting, faulted, is_in_flight,
}
use ccbench.Si.Invariant.{
  IsCommitted, IsFlying, IsOwned, IsSeen, HasWritten, IsActive, IsFound, IsCommitting, IsStamped,
  IsSettled,
}

-- A step of worker `i`: what is decided stays, and only its own versions in flight change.
pub record Grows (i : ℕ) (g g' : Shared) : Type 0 where
  pub allocated : g.allocated ≤ g'.allocated
  pub cctr : g.cctr ≤ g'.cctr
  pub committed : (k v : ℕ) → IsCommitted (version g k v) → version g' k v ≡ version g k v
  pub settled :
      (k v : ℕ)
      → v < g.allocated
      → is_in_flight (version g k v).status ≡ false
      → version g' k v ≡ version g k v
  pub foreign :
      (k v : ℕ)
      → IsFlying (version g k v)
      → (version g k v).owner ≢ i
      → version g' k v ≡ version g k v

module _ {i : ℕ} {g g' : Shared} (grows : Grows i g g') where
  pub IsSeen-grows :
      (txid : ℕ) (rs : List SetElement) → All (IsSeen g txid) rs → All (IsSeen g' txid) rs
  IsSeen-grows txid rs h = All-map _ _ (λ e s. rw (grows.committed e.key e.ver s.0) s) rs h

module _ {i : ℕ} {g g' : Shared} (grows : Grows i g g') (j : ℕ) (other : j ≢ i) where
  IsOwned-grows : (txid : ℕ) (e : SetElement) → IsOwned g j txid e → IsOwned g' j txid e
  IsOwned-grows txid e h =
      let same = grows.foreign e.key e.ver h.flying (λ z. other (omega (arith, z, h.owner))) in
      record { flying = rw same h.flying; owner = rw same h.owner; began = rw same h.began }

  HasWritten-grows :
      (txid : ℕ) (ws : List SetElement) → HasWritten g j txid ws → HasWritten g' j txid ws
  HasWritten-grows txid ws h = record {
    owned = All-map _ _ (IsOwned-grows txid) ws h.owned;
    once = h.once;
  }

  IsActive-grows : (x : TxExecutor) → IsActive g j x → IsActive g' j x
  IsActive-grows x h = record {
    written = HasWritten-grows x.txid x.write_set h.written;
    seen = IsSeen-grows grows x.txid x.read_set h.seen;
    txid = omega (arith, h.txid, grows.cctr);
    cstamp = omega (arith, h.cstamp, grows.cctr);
  }

  IsFound-grows : (x : TxExecutor) (key e v : ℕ) → IsFound g x key e v → IsFound g' x key e v
  IsFound-grows x key e v h =
      let same = grows.settled key e h.expected h.settled in
      record {
        unwritten = h.unwritten;
        expected = omega (arith, h.expected, grows.allocated);
        settled = rw same h.settled;
        top = elim h.top [
          | inl (c, r) ↦ inl (rw same c, r)
          | inr (c, r) ↦ inr (rw same c, rw same r)
        ];
        committed = rw (grows.committed key v h.committed) h.committed;
      }

  IsCommitting-grows :
      (x : TxExecutor) (rest : List SetElement) → IsCommitting g j x rest → IsCommitting g' j x rest
  IsCommitting-grows x rest h = record {
    written = HasWritten-grows x.txid rest h.written;
    seen = IsSeen-grows grows x.txid x.read_set h.seen;
    cstamp = (h.cstamp.0, omega (arith, h.cstamp.1, grows.cctr));
  }

  IsStamped-grows :
      (x : TxExecutor) (rest : List SetElement)
      → IsCommitting g j x rest
      → IsStamped g x.cstamp rest
      → IsStamped g' x.cstamp rest
  IsStamped-grows x [] c h = tt
  IsStamped-grows x (e ∷ rest) c h =
      let o = c.written.owned.0 in
      rw (grows.foreign e.key e.ver o.flying (λ z. other (omega (arith, z, o.owner)))) h

  pub IsSettled-grows : (ph : Phase) (x : TxExecutor) → IsSettled g j ph x → IsSettled g' j ph x
  IsSettled-grows idle x h = (h.0, h.1, omega (arith, h.2, grows.cctr))
  IsSettled-grows (beginning m todo) x h =
      ((h.0.0, h.0.1, omega (arith, h.0.2, grows.cctr)), omega (arith, h.1, grows.cctr))
  IsSettled-grows (running todo) x h = IsActive-grows x h
  IsSettled-grows (loaded key b todo v) x h =
      (IsActive-grows x h.0, omega (arith, h.1, grows.allocated))
  IsSettled-grows (searching key b todo v) x h =
      (IsActive-grows x h.0, rw (grows.committed key v h.1) h.1)
  IsSettled-grows (copying key b todo v) x h =
      let same = grows.committed key v h.1 in (IsActive-grows x h.0, rw same h.1, rw same h.2)
  IsSettled-grows (writing key todo) x h = IsActive-grows x h
  IsSettled-grows (examining key todo e) x h =
      (IsActive-grows x h.0, h.1, omega (arith, h.2, grows.allocated))
  IsSettled-grows (conflicting key todo e) x h =
      (IsActive-grows x h.0, h.1, omega (arith, h.2, grows.allocated))
  IsSettled-grows (climbing key todo e v) x h = (
    IsActive-grows x h.0,
    h.1,
    omega (arith, h.2, grows.allocated),
    rw (grows.settled key e h.2 h.3) h.3,
    elim h.4 [ inl same ↦ inl same | inr found ↦ inr (IsFound-grows x key e v found) ],
  )
  IsSettled-grows (testing key todo e v) x h = (IsActive-grows x h.0, IsFound-grows x key e v h.1)
  IsSettled-grows (linking key todo e v) x h = (
    IsActive-grows x h.0,
    IsFound-grows x key e v h.1,
    rw (grows.committed key v h.1.committed) h.2,
  )
  IsSettled-grows (stamping rest) x h = IsCommitting-grows x rest h
  IsSettled-grows (paying rest) x h =
      (IsCommitting-grows x rest h.0, IsStamped-grows x rest h.0 h.1)
  IsSettled-grows (releasing rest) x h =
      (IsCommitting-grows x rest h.0, IsStamped-grows x rest h.0 h.1)
  IsSettled-grows ending x h = (h.0, h.1, omega (arith, h.2, grows.cctr))
  IsSettled-grows (aborting rest) x h = (
    HasWritten-grows x.txid rest h.0,
    omega (arith, h.1, grows.cctr),
    IsSeen-grows grows x.txid x.read_set h.2,
  )
  IsSettled-grows faulted x h = h
