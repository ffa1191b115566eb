-- ===== src/Silo/Storing.antt =====
-- The steps of `writePhase` of silo/: the payload of a tuple, and then its word.
use ccbench.Common.{
  ℕ, ◌+◌, ◌≤◌, ◌<◌, ◌≡◌, refl, ap, subst, Bool, true, false, ◌==◌, ==_refl, ==_iff, if◌then◌else◌,
  List, ◌∷◌, count, arith,
}
use ccbench.Common.Family.{assign, at_key, sum_of-assign, le-sum_of}
use ccbench.Serial.{Db}
use ccbench.Timestamps.Protocol.{bit}
use ccbench.Timestamps.Calm.{calm_step}
use ccbench.Timestamps.Stores.{store_step}
use ccbench.Silo.Tidword.{Tidword, version}
use ccbench.Silo.Operations.{Tuple, Table, WriteElement, write_keys, stored}
use ccbench.Silo.Workers.{
  Worker, Shared, Stamps, moves, goes_to, storing, releasing, store_payload, store_word,
}
use ccbench.Silo.System.{System, advance}
use ccbench.Silo.World.{Grows, Keeps, IsStoring}
use ccbench.Silo.Holding.{held_on, pending_on, claims_on}
use ccbench.Silo.Growing.{IsStoring-grows}
use ccbench.Silo.Invariant.{world, view, Inv, go}
use ccbench.Silo.Locking.{At}

module _ {n : ℕ} {first : Db} {s : System} (inv : Inv n first s) (i : ℕ) (lt : i < n)
    (rest : List WriteElement) (e : WriteElement) where
  abbrev w : Worker
  w = s.workers i

  abbrev t : Table
  t = s.shared.table

  module _ (a : At inv i lt (storing (e ∷ rest))) where
    abbrev w' : Worker
    w' = record w { phase = releasing (e ∷ rest) }

    abbrev new : Tuple
    new = record (t e.key) { val = stored w.tx.write_val e.val (t e.key).val }

    abbrev g' : Shared
    g' = record s.shared { table = assign t e.key new }

    abbrev s' : System
    s' = advance s i (moves g' w')

    other_val : (k : ℕ) → (e.key == k) ≡ false → (g'.table k).val ≡ (t k).val
    other_val k o = rw o refl

    same_word : (k : ℕ) → (g'.table k).tidword ≡ (t k).tidword
    same_word k = at_key (λ j (v : Tuple). v.tidword ≡ (t j).tidword) t e.key new k refl (λ o. refl)

    same_ver : (k : ℕ) → version (g'.table k).tidword ≡ version (t k).tidword
    same_ver k = ap version (same_word k)

    payload-Grows : (k : ℕ) → Grows (world n first s) (world n first s') k
    payload-Grows k = record {
      ver = omega (arith, same_ver k);
      rts = omega arith;
      same_wts = λ v. omega arith;
      past = λ ts z. refl;
      payload = λ v quiet.
          let old = sum_of-assign (pending_on k) n s.workers i w' lt in
          let own = le-sum_of (pending_on k) n s.workers i lt in
          (
            omega (arith, quiet, a.pending_as k, old),
            other_val k (ground (arith, quiet, a.pending_as k, old, own)),
          );
    }

    pub storing_step :
        Inv n first
          (advance s i (goes_to (store_payload s.shared w.tx.write_val e) w (releasing (e ∷ rest))))
    storing_step =
        go inv i lt (moves g' w')
          (calm_step inv.core i lt w' (view s').cells (record {
            wts_up = λ k. omega arith;
            rts_up = λ k. omega arith;
            range = inv.core.range;
            table_ts = λ k. omega (arith, inv.core.table_ts k);
            frozen = λ k z l. refl;
            same_val = λ k z. other_val k (ground (arith, z));
            locks = λ k. omega (arith, a.held_as k, ap (λ (v : Tidword). bit v.lock) (same_word k));
            same_pending = λ k. omega (arith, a.pending_as k);
            same_write = λ k z. (refl, refl);
            commit_ts = omega (arith, a.bound);
            claimed = λ k z. inv.core.claimed i k lt (omega (arith, z, a.claims_as k));
          }))
          payload-Grows
          (λ k z l. record {
            ver = same_ver k;
            val = other_val k (ground (arith, z, a.held_as k));
            at = λ ts. refl;
          })
          (
            stays,
            rw (==_refl e.key)
                (ap (λ (v : List ℕ). stored w.tx.write_val v (t e.key).val) a.settled.plain.0),
          )
      where
        stays : IsStoring (world n first s') w.tx (e ∷ rest)
        stays = IsStoring-grows w.tx (e ∷ rest) (λ k c. same_ver k) a.settled

  module _ (a : At inv i lt (releasing (e ∷ rest))) where
    abbrev w'' : Worker
    w'' = record w { phase = storing rest }

    abbrev new_word : Tuple
    new_word = record (t e.key) { tidword = w.tx.mrctid }

    abbrev g'' : Shared
    g'' = store_word s.shared e.key w.tx.mrctid w.ticket

    abbrev s'' : System
    s'' = advance s i (moves g'' w'')

    stores :
        (k : ℕ)
        → (held_on k w ≡ (if e.key == k then 1 else 0) + count k (write_keys rest))
          × (claims_on k w ≡ (if e.key == k then 1 else 0) + count k (write_keys rest))
          × (pending_on k w ≡ (if e.key == k then 1 else 0) + count k (write_keys rest))
    stores k = (a.held_as k, a.claims_as k, a.pending_as k)

    not_later : count e.key (write_keys rest) ≡ 0
    not_later =
        ground
          (arith, stores e.key, inv.core.locks e.key, le-sum_of (held_on e.key) n s.workers i lt)

    not_later_at : (k : ℕ) → (e.key == k) ≡ true → count k (write_keys rest) ≡ 0
    not_later_at k h =
        subst (λ (x : ℕ). count x (write_keys rest) ≡ 0) ((==_iff e.key k).0 h) not_later

    same_tuple : (k : ℕ) → (e.key == k) ≡ false → g''.table k ≡ t k
    same_tuple k o = rw o refl

    word_val : (k : ℕ) → (g''.table k).val ≡ (t k).val
    word_val k = at_key (λ j (v : Tuple). v.val ≡ (t j).val) t e.key new_word k refl (λ o. refl)

    word_later : version (t e.key).tidword < version w.tx.mrctid
    word_later = a.settled.0.later.0

    word_up : (k : ℕ) → version (t k).tidword ≤ version (g''.table k).tidword
    word_up k =
        at_key (λ j (v : Tuple). version (t j).tidword ≤ version v.tidword) t e.key new_word k
          (omega (arith, word_later)) (λ o. omega arith)

    elsewhere : (k : ℕ) → (e.key == k) ≡ false → (view s'').cells k ≡ (view s).cells k
    elsewhere k o = rw o refl

    changed : (k : ℕ) → version (t k).tidword ≡ version (g''.table k).tidword → (e.key == k) ≡ false
    changed k =
        at_key (λ j (v : Tuple). version (t j).tidword ≡ version v.tidword → (e.key == j) ≡ false) t
          e.key new_word k (λ z. absurd (omega (arith, z, word_later))) (λ o z. o)

    keeps : (k : ℕ) → (e.key == k) ≡ false → Keeps (world n first s) (world n first s'') k
    keeps k o = record {
      ver = ap (λ (v : Tuple). version v.tidword) (same_tuple k o);
      val = word_val k;
      at = λ ts. refl;
    }

    word-Grows : (k : ℕ) → Grows (world n first s) (world n first s'') k
    word-Grows k = record {
      ver = word_up k;
      rts =
          at_key (λ j (v : Stamps). (s.shared.stamps j).rts ≤ v.rts) s.shared.stamps e.key
            (record { wts = w.ticket; rts = w.ticket }) k
            (omega (arith, inv.core.claimed i e.key lt (ground (arith, stores e.key))))
            (λ o. omega arith);
      same_wts = λ v. rw (changed k v) (omega arith);
      past = λ ts z. refl;
      payload = λ v quiet. (
        ground (
          arith,
          quiet,
          stores k,
          changed k v,
          sum_of-assign (pending_on k) n s.workers i w'' lt,
        ),
        word_val k,
      );
    }

    pub releasing_step :
        Inv n first
          (advance s i (goes_to (store_word s.shared e.key w.tx.mrctid w.ticket) w (storing rest)))
    releasing_step =
        go inv i lt (moves g'' w'')
          (store_step inv.core i lt w'' e.key (view s'').cells (record {
            lists = stores;
            there = rw (==_refl e.key) (
                ap
                  (λ (b : Bool). record {
                    lock = b;
                    wts = w.ticket;
                    rts = w.ticket;
                    val = (t e.key).val;
                  })
                  a.settled.0.unlocks);
            elsewhere = elsewhere;
            same_ts = refl;
            same_payload = refl;
            payload = a.settled.1;
          }))
          word-Grows (λ k z l. keeps k (ground (arith, z, stores k)))
          (IsStoring-grows {a = world n first s} {b = world n first s''} w.tx rest
            (λ k c.
              ap (λ (v : Tuple). version v.tidword)
                (same_tuple k (ground (arith, c, not_later_at k))))
            (record {
              plain = a.settled.0.plain.1;
              later = a.settled.0.later.1;
              unlocks = a.settled.0.unlocks;
            }))
