-- ===== src/Silo/Room.antt =====
-- A run of silo/ with fewer steps than a TID has values leaves room for a later TID.
use ccbench.Common.{ℕ, suc, ◌%◌, ◌^◌, ◌≤◌, ◌<◌, ◌≡◌, refl, true, false, [], ◌∷◌, arith}
use ccbench.Common.Family.{assign, at_key}
use ccbench.Common.Family.{at_each}
use ccbench.Serial.{Db}
use ccbench.Silo.Tidword.{Tidword, zero_word, max_word, next_tid, choose_tid}
use ccbench.Silo.Operations.{Tuple, set_lock, write_key, begin, abort}
use ccbench.Silo.Workers.{
  Phase, idle, leading, running, locking, fenced, validating, unlocking, storing, releasing, Worker,
  Shared, Progress, proceed, start, moves, goes_to,
}
use ccbench.Silo.System.{
  System, advance, Step, starts, leads, runs, Reach, here, next, init, local_epochs,
}
use ccbench.Silo.Steps.{HadRoom}

abbrev loaded : Phase → ℕ
loaded (fenced epoch) = epoch
loaded _ = 0

record IsSmallWorker (c : ℕ) (w : Worker) : Type 0 where
  last : w.tx.mrctid.tid ≤ c
  wset : w.tx.max_wset.tid ≤ c
  rset : w.tx.max_rset.tid ≤ c
  epoch : w.tx.local_epoch ≤ suc c
  fence : loaded w.phase ≤ suc c

record IsSmall (c : ℕ) (g : Shared) : Type 0 where
  words : (k : ℕ) → (g.table k).tidword.tid ≤ c
  global : g.global_epoch ≤ suc c

max_word-tid : (a b : Tidword) (c : ℕ) → a.tid ≤ c → b.tid ≤ c → (max_word a b).tid ≤ c
unfolding max_word
max_word-tid a b c ha hb = ground arith

choose_tid-tid :
    (a b m : Tidword) (e c : ℕ)
    → a.tid ≤ c
    → b.tid ≤ c
    → m.tid ≤ c
    → (choose_tid a b m e).tid ≤ suc c
unfolding choose_tid next_tid
choose_tid-tid a b m e c ha hb hm =
    max_word-tid (max_word (next_tid (max_word a b)) (next_tid m))
      (record zero_word { epoch = e % 2 ^ 32 }) (suc c)
      (max_word-tid (next_tid (max_word a b)) (next_tid m) (suc c)
        (omega (arith, max_word-tid a b c ha hb)) (omega arith))
      (omega arith)

module _ (n clock : ℕ) (epochs : ℕ → ℕ) (c : ℕ) (g : Shared) (w : Worker) (small : IsSmall c g)
    (sw : IsSmallWorker c w) where
  assigned :
      (k₀ : ℕ) (v : Tuple)
      → v.tidword.tid ≤ suc c
      → (k : ℕ) → (assign g.table k₀ v k).tidword.tid ≤ suc c
  assigned k₀ v h k =
      at_key (λ j (x : Tuple). x.tidword.tid ≤ suc c) g.table k₀ v k h
        (λ o. omega (arith, small.words k))

  proceed-words :
      (ph : Phase) (k : ℕ) → ((proceed n clock epochs ph g w).shared.table k).tidword.tid ≤ suc c
  unfolding proceed
  proceed-words (locking done (e ∷ rest)) k = ground (
    arith,
    small.words k,
    assigned e.key (set_lock true (g.table e.key)) (omega (arith, small.words e.key)) k,
  )
  proceed-words (unlocking (e ∷ rest)) k =
      assigned e.key (set_lock false (g.table e.key)) (omega (arith, small.words e.key)) k
  proceed-words (storing (e ∷ rest)) k = assigned e.key _ (omega (arith, small.words e.key)) k
  proceed-words (releasing (e ∷ rest)) k = assigned e.key _ (omega (arith, sw.last)) k
  proceed-words (locking done []) k = omega (arith, small.words k)
  proceed-words (validating checked (e ∷ rest)) k = ground (arith, small.words k)
  proceed-words (leading thread nowepo) k = ground (arith, small.words k)
  proceed-words _ k = ground (arith, small.words k)

  proceed-global : (ph : Phase) → (proceed n clock epochs ph g w).shared.global_epoch ≤ suc (suc c)
  unfolding proceed
  proceed-global idle = omega (arith, small.global)
  proceed-global _ = ground (arith, small.global)

  proceed-worker :
      (ph : Phase)
      → loaded ph ≤ suc c
      → IsSmallWorker (suc c) (proceed n clock epochs ph g w).worker
  unfolding proceed begin abort write_key
  proceed-worker idle h = ground (arith, sw)
  proceed-worker (running []) h = ground (arith, sw)
  proceed-worker (running (p ∷ todo)) h = ground (arith, sw)
  proceed-worker (locking done (e ∷ rest)) h =
      ground (
        arith,
        sw,
        max_word-tid w.tx.max_wset (g.table e.key).tidword c sw.wset (small.words e.key),
      )
  proceed-worker (locking done []) h = ground (arith, sw, small.global)
  proceed-worker (validating checked (e ∷ rest)) h =
      ground (
        arith,
        sw,
        max_word-tid w.tx.max_rset (g.table e.key).tidword c sw.rset (small.words e.key),
      )
  proceed-worker (validating checked []) h = ground (
    arith,
    sw,
    choose_tid-tid w.tx.max_wset w.tx.max_rset w.tx.mrctid w.tx.local_epoch c sw.wset sw.rset
        sw.last,
  )
  proceed-worker _ h = ground (arith, sw)

record IsSmallSystem (s : System) : Type 0 where
  shared : IsSmall s.clock s.shared
  worker : (i : ℕ) → IsSmallWorker s.clock (s.workers i)

-- A step of a worker, while the others only see the bound grow.
advance-IsSmallSystem :
    (s : System) (i : ℕ) (p : Progress)
    → IsSmallSystem s
    → IsSmall (suc s.clock) p.shared
    → IsSmallWorker (suc s.clock) p.worker
    → IsSmallSystem (advance s i p)
advance-IsSmallSystem s i p small g w = record {
  shared = g;
  worker = λ j.
      at_each (IsSmallWorker (suc s.clock)) s.workers i p.worker j w (λ o. grown (small.worker j));
}
  where
    grown : {w : Worker} → IsSmallWorker s.clock w → IsSmallWorker (suc s.clock) w
    grown h = record {
      last = omega (arith, h.last);
      wset = omega (arith, h.wset);
      rset = omega (arith, h.rset);
      epoch = omega (arith, h.epoch);
      fence = omega (arith, h.fence);
    }

Step-IsSmallSystem : {n : ℕ} {s t : System} → Step n s t → IsSmallSystem s → IsSmallSystem t
unfolding start begin
Step-IsSmallSystem {s = s} (starts i todo lt e) small =
    let w = small.worker i in
    advance-IsSmallSystem s i (moves s.shared (start (s.workers i) todo)) small
      (record {
        words = λ k. omega (arith, small.shared.words k);
        global = omega (arith, small.shared.global);
      })
      (record {
        last = omega (arith, w.last);
        wset = omega arith;
        rset = omega arith;
        epoch = omega (arith, w.epoch);
        fence = omega arith;
      })
Step-IsSmallSystem {s = s} (leads lt e) small =
    let w = small.worker 0 in
    advance-IsSmallSystem s 0 (goes_to s.shared (s.workers 0) (leading 1 s.shared.global_epoch))
      small
      (record {
        words = λ k. omega (arith, small.shared.words k);
        global = omega (arith, small.shared.global);
      })
      (record {
        last = omega (arith, w.last);
        wset = omega (arith, w.wset);
        rset = omega (arith, w.rset);
        epoch = omega (arith, w.epoch);
        fence = omega arith;
      })
Step-IsSmallSystem {n} {s} (runs i lt) small =
    let w = s.workers i in
    advance-IsSmallSystem s i (proceed n s.clock (local_epochs s) w.phase s.shared w) small
      (record {
        words =
            proceed-words n s.clock (local_epochs s) s.clock s.shared w small.shared
              (small.worker i) w.phase;
        global =
            proceed-global n s.clock (local_epochs s) s.clock s.shared w small.shared
              (small.worker i) w.phase;
      })
      (proceed-worker n s.clock (local_epochs s) s.clock s.shared w small.shared (small.worker i)
        w.phase (small.worker i).fence)

Reach-IsSmallSystem :
    {n : ℕ} {first vals : Db} {s : System} → Reach n first vals s → IsSmallSystem s
unfolding init
Reach-IsSmallSystem here = record {
  shared = record { words = λ k. omega arith; global = omega arith };
  worker = λ i. record {
    last = omega arith;
    wset = omega arith;
    rset = omega arith;
    epoch = omega arith;
    fence = omega arith;
  };
}
Reach-IsSmallSystem (next r st) = Step-IsSmallSystem st (Reach-IsSmallSystem r)

clock_grows : {n : ℕ} {s t : System} → Step n s t → t.clock ≡ suc s.clock
clock_grows (starts i todo lt e) = refl
clock_grows (leads lt e) = refl
clock_grows (runs i lt) = refl

-- In a run of fewer than 2^29 steps of silo/, no TID field is at its largest value and every local epoch
-- fits the epoch field, in every state before the last.
pub short-HadRoom :
    {n : ℕ} {first vals : Db} {s : System} (r : Reach n first vals s) → s.clock < 2 ^ 29 → HadRoom r
unfolding HadRoom
short-HadRoom here h = tt
short-HadRoom (next r st) h =
    let small = Reach-IsSmallSystem r in
    (
      short-HadRoom r (omega (arith, h, clock_grows st)),
      record {
        words = λ k. omega (arith, h, clock_grows st, small.shared.words k);
        last = λ i. omega (arith, h, clock_grows st, (small.worker i).last);
        epochs = λ i. omega (arith, h, clock_grows st, (small.worker i).epoch);
      },
    )
