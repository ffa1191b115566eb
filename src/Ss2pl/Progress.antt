-- ===== src/Ss2pl/Progress.antt =====
-- What one step of one worker does to the locks, the payloads and its own sets.
use ccbench.Common.{
  ℕ, ◌+◌, ◌≤◌, ◌≡◌, refl, sym, ap, ◌∙◌, ◌⊎◌, inl, Bool, true, false, if◌then◌else◌, List, [], ◌∷◌,
  ◌++◌, Option, none, some, count, All, All-append, All-map, arith,
}
use ccbench.Rwlock.{r_unlock, w_unlock}
use ccbench.Rwlock.Agreement.{Agrees, r_unlock-Agrees, w_unlock-Agrees}
use ccbench.Ss2pl.Types.{Procedure, Table, SetElement, TxExecutor, keys}
use ccbench.Ss2pl.Operations.{
  State, search_read_set, search_write_set, execute, store, unlock_read, unlock_write,
}
use ccbench.Ss2pl.Effects.{
  IsMatched, IsCurrent, IsCurrent-mono, Effect, set_lock-Agrees, Agrees-cast,
}
use ccbench.Ss2pl.Executing.{execute-Effect}
use ccbench.Ss2pl.Loading.{execute-IsLoaded}
use ccbench.Ss2pl.Workers.{
  Phase, idle, running, storing, unlocking, Worker, Commit, Progress, proceed, start, is_aborted,
  loaded,
}

-- The tuples that the worker has locked: those that `unlockList` has still to unlock, once it runs.
abbrev pub held_reads : Phase → TxExecutor → List ℕ
held_reads (unlocking reads writes) x = reads
held_reads _ x = x.r_lock_list

abbrev pub held_writes : Phase → TxExecutor → List ℕ
held_writes (unlocking reads writes) x = writes
held_writes _ x = x.w_lock_list

abbrev pub reads_on : ℕ → Worker → ℕ
reads_on k w = count k (held_reads w.phase w.tx)

abbrev pub writes_on : ℕ → Worker → ℕ
writes_on k w = count k (held_writes w.phase w.tx)

-- The tuples that a committed transaction has still to write.
abbrev pub pending : Phase → List ℕ
pending (storing rest) = rest
pending _ = []

abbrev pub pending_on : ℕ → Worker → ℕ
pending_on k w = count k (pending w.phase)

-- What holds of a worker alone, in each phase.
abbrev pub IsSettled : Phase → Table → Worker → Type 0
IsSettled idle t w =
    (w.tx.r_lock_list ≡ []) × (w.tx.w_lock_list ≡ []) × (w.tx.read_set ≡ []) × (w.tx.write_set ≡ [])
IsSettled (running todo) t w =
    IsMatched w.tx × All (IsCurrent t w.tx) w.tx.read_set × All (IsCurrent t w.tx) w.seen
IsSettled (storing rest) t w = (k : ℕ) → count k rest ≤ count k w.tx.w_lock_list
IsSettled (unlocking reads writes) t w = Unit

-- What happens to the tuple `k` in a step from phase `ph`, if no transaction commits in it: nothing,
-- or a pending write.
abbrev pub Moves : Phase → Table → Worker → Table → Worker → ℕ → Type 0
Moves ph t w t' w' k =
    ((pending_on k w' ≡ count k (pending ph)) × ((t' k).val ≡ (t k).val))
    ⊎ ((1 ≤ count k (pending ph))
        × (pending_on k w' ≤ count k (pending ph))
        × ((t' k).val ≡ w.tx.write_val))

-- A commit: what was read is current, and the writes become pending.
pub record Commits (ph : Phase) (t : Table) (w : Worker) (p : Progress) (c : Commit) : Type 0 where
  pub current : All (IsCurrent t w.tx) c.reads
  pub locked : (k : ℕ) → count k c.writes ≤ count k w.tx.w_lock_list
  pub same : p.table ≡ t
  pub pends : pending p.worker.phase ≡ c.writes
  pub val : c.val ≡ w.tx.write_val
  pub none_before : pending ph ≡ []
  pub own_reads : held_reads ph w.tx ≡ w.tx.r_lock_list
  pub own_writes : held_writes ph w.tx ≡ w.tx.w_lock_list

abbrev pub Logs : Option Commit → Phase → Table → Worker → Progress → Type 0
Logs none ph t w p = (k : ℕ) → Moves ph t w p.table p.worker k
Logs (some c) ph t w p = Commits ph t w p c

pub record Advances (ph : Phase) (t : Table) (w : Worker) (p : Progress) : Type 0 where
  pub locks :
      (k r v : ℕ)
      → Agrees (t k).lock (count k (held_reads ph w.tx) + r) (count k (held_writes ph w.tx) + v)
      → Agrees (p.table k).lock (reads_on k p.worker + r) (writes_on k p.worker + v)
  pub vals : (k : ℕ) → ((p.table k).val ≡ (t k).val) ⊎ (1 ≤ count k (held_writes ph w.tx))
  pub settled : IsSettled p.worker.phase p.table p.worker
  pub logs : Logs p.logged ph t w p
  pub same_val : p.worker.tx.write_val ≡ w.tx.write_val

-- A worker between `begin` and the commit, or at its end, has settled with empty sets.
finished : (t : Table) (w : Worker) → Advances (unlocking [] []) t w (proceed (unlocking [] []) t w)
unfolding proceed
finished t w = ground arith

operation-Advances :
    (p : Procedure) (todo : List Procedure) (t : Table) (w : Worker)
    → IsSettled (running (p ∷ todo)) t w
    → Advances (running (p ∷ todo)) t w (proceed (running (p ∷ todo)) t w)
unfolding proceed search_read_set search_write_set
operation-Advances p todo t w (m, reads, seen) =
    ended (is_aborted s'.tx.status) (execute-IsLoaded s p)
  where
    s : State
    s = record { table = t; tx = w.tx }

    s' : State
    s' = execute s p

    e : Effect s s'
    e = execute-Effect s p m reads

    IsSeen : List SetElement → Type 0
    IsSeen = All (IsCurrent s'.table s'.tx)

    found : List SetElement
    found = loaded w.tx p s'.tx

    all_seen : IsSeen found → IsSeen (found ++ s'.tx.read_set ++ w.seen)
    all_seen h =
        All-append _ (found ++ s'.tx.read_set) w.seen
          (All-append _ found s'.tx.read_set h e.current)
          (All-map _ _ (λ x. IsCurrent-mono s s' x (e.vals x.key) (e.held x.key)) w.seen seen)

    ended :
        (b : Bool)
        → (b ≡ false → IsSeen found)
        → Advances (running (p ∷ todo)) t w (record {
          table = s'.table;
          worker = record w {
            tx = s'.tx;
            seen = found ++ s'.tx.read_set ++ w.seen;
            phase = if b then unlocking s'.tx.r_lock_list s'.tx.w_lock_list else running todo;
          };
          logged = none;
        })
    ended true h = record {
      locks = e.locks;
      vals = λ k. inl (e.vals k);
      settled = tt;
      logs = λ k. inl (refl, e.vals k);
      same_val = e.same_val;
    }
    ended false h = record {
      locks = e.locks;
      vals = λ k. inl (e.vals k);
      settled = (e.matched, e.current, all_seen (h refl));
      logs = λ k. inl (refl, e.vals k);
      same_val = e.same_val;
    }

pub proceed-Advances :
    (ph : Phase) (t : Table) (w : Worker) → IsSettled ph t w → Advances ph t w (proceed ph t w)
unfolding proceed store unlock_read unlock_write
proceed-Advances idle t w h = record {
  locks = λ k r v a. a;
  vals = λ k. inl refl;
  settled = h;
  logs = λ k. inl (refl, refl);
  same_val = refl;
}
proceed-Advances (running []) t w h = record {
  locks = λ k r v a. a;
  vals = λ k. inl refl;
  settled = λ k. ground (arith, h.0.writes);
  logs = record {
    current = h.2;
    locked = λ k. ground (arith, h.0.writes);
    same = refl;
    pends = refl;
    val = refl;
    none_before = refl;
    own_reads = refl;
    own_writes = refl;
  };
  same_val = refl;
}
proceed-Advances (running (p ∷ todo)) t w h = operation-Advances p todo t w h
proceed-Advances (storing (k ∷ rest)) t w h = record {
  locks = λ j r v a. ground arith;
  vals = λ j. ground (arith, h j);
  settled = λ j. omega (arith, h j);
  logs = λ j. ground arith;
  same_val = refl;
}
proceed-Advances (storing []) t w h = record {
  locks = λ k r v a. a;
  vals = λ k. inl refl;
  settled = tt;
  logs = λ k. inl (refl, refl);
  same_val = refl;
}
proceed-Advances (unlocking (k ∷ reads) writes) t w h = record {
  locks = λ j r v a.
      set_lock-Agrees t k j (r_unlock (t k).lock) a
        (λ e b. r_unlock-Agrees (t k).lock (Agrees-cast _ b (ground arith) refl))
        (λ e. (ground arith, refl));
  vals = λ j. inl (ground arith);
  settled = tt;
  logs = λ j. inl (refl, ground arith);
  same_val = refl;
}
proceed-Advances (unlocking [] (k ∷ writes)) t w h = record {
  locks = λ j r v a.
      set_lock-Agrees t k j (w_unlock (t k).lock) a
        (λ e b. w_unlock-Agrees (t k).lock (Agrees-cast _ b refl (ground arith)))
        (λ e. (refl, ground arith));
  vals = λ j. inl (ground arith);
  settled = tt;
  logs = λ j. inl (refl, ground arith);
  same_val = refl;
}
proceed-Advances (unlocking [] []) t w h = finished t w

-- `begin` takes no lock, and starts from empty sets.
pub start-Advances :
    (t : Table) (w : Worker) (todo : List Procedure)
    → IsSettled idle t w
    → Advances idle t w (record { table = t; worker = start w todo; logged = none })
unfolding start
start-Advances t w todo (reads, writes, read_set, write_set) = record {
  locks = λ k r v a. a;
  vals = λ k. inl refl;
  settled = (
    record { reads = ap keys read_set ∙ sym reads; writes = write_set ∙ sym writes },
    rw read_set tt,
    tt,
  );
  logs = λ k. inl (refl, refl);
  same_val = refl;
}
