-- ===== src/Tictoc/Commits.antt =====
-- The steps of tictoc/ that commit: the end of a validation, and the store of a word.
use ccbench.Common.{
  ℕ, suc, ◌+◌, ◌%◌, ◌^◌, ◌≤◌, ◌<◌, ◌≡◌, refl, sym, ap, subst, ◌∙◌, Bool, false, ◌==◌, if◌then◌else◌,
  List, [], ◌∷◌, All, All-map, All-of_map, arith, count, ==_refl,
}
use mathlib.Core.List.{append-nil}
use ccbench.Common.Family.{assign, at_key, sum_of, sum_of-assign}
use ccbench.Serial.{Db}
use ccbench.Tictoc.Types.{Tuple, Table, rts, SetElement, WriteElement, write_keys}
use ccbench.Tictoc.Operations.{store_word}
use ccbench.Timestamps.History.{Stamped, insert, state_at}
use ccbench.Timestamps.Protocol.{Cell}
use ccbench.Timestamps.Commits.{IsDecision, log_step, state_before, state_other}
use ccbench.Timestamps.Stores
use ccbench.Tictoc.Workers.{Worker, Phase, System, validating, storing, stored, commit_of, found}
use ccbench.Tictoc.World.{Grows, held_on, pending_on, claims_on, IsSettled, IsChecked, IsValidating}
use ccbench.Tictoc.Invariant.{world, cells, Inv, moved, Keeps-Inv, claims-le-held_on}

module _ {n : ℕ} {first : Db} {m : ℕ} {s : System} (inv : Inv n first m s) (i : ℕ)
    (lt : i < n) where
  abbrev pub w : Worker
  w = s.workers i

  module _ (checked : List SetElement) (ph : w.phase ≡ validating checked []) where
    before : IsValidating (world n first s) w.tx checked []
    before = subst (λ (p : Phase). IsSettled (world n first s) p w.tx) ph (inv.settled i lt)

    abbrev pub goes : Worker
    goes = record w { phase = storing w.tx.write_set }

    abbrev pub stamped : Stamped
    stamped = record { ts = w.tx.commit_ts; commit = commit_of w.tx }

    held_as :
        (k : ℕ)
        → (held_on k w ≡ held_on k goes) × (pending_on k w ≡ 0) × (claims_on k w ≡ claims_on k goes)
    held_as k = (
      ap (λ (p : Phase). held_on k (record w { phase = p })) ph,
      ap (λ (p : Phase). pending_on k (record w { phase = p })) ph,
      ap (λ (p : Phase). claims_on k (record w { phase = p })) ph,
    )

    All-IsChecked :
        All (IsChecked (world n first s) w.tx.commit_ts (write_keys w.tx.write_set)) w.tx.read_set
    All-IsChecked =
        subst (All (IsChecked (world n first s) w.tx.commit_ts (write_keys w.tx.write_set)))
          (sym (append-nil checked) ∙ before.split) before.done

    decision : IsDecision inv.core i lt goes (commit_of w.tx)
    decision = record {
      same_held = λ k. omega (arith, held_as k);
      same_claims = λ k. omega (arith, held_as k);
      was_none = λ k. (held_as k).1;
      now_pending = λ k. refl;
      same_ts = refl;
      payload = refl;
      reads =
          All-of_map _ found w.tx.read_set
            (All-map _ _ (λ e c. c.value) w.tx.read_set All-IsChecked);
      lasting =
          All-of_map _ found w.tx.read_set
            (All-map _ _ (λ e c. c.lasting) w.tx.read_set All-IsChecked);
    }

    -- Up to the `rts` of a tuple the decision changes nothing.
    past :
        (ts k : ℕ)
        → ts ≤ rts (s.table k).tsw
        → state_at first (insert stamped s.history) ts k ≡ state_at first s.history ts k
    past = state_before inv.core i lt goes (commit_of w.tx) decision

    pub decide_step : Inv n first (suc m) (moved s i goes s.table (insert stamped s.history))
    decide_step =
        Keeps-Inv inv i lt goes s.table (insert stamped s.history)
          (log_step inv.core i lt goes (commit_of w.tx) decision)
          (record {
            words = inv.words;
            level = λ k ts lo hi.
                past ts k hi
                ∙ inv.level k ts lo hi
                ∙ sym (past (s.table k).tsw.wts k (omega arith));
            grows = λ k. record {
              wts = omega arith;
              rts = omega arith;
              past = λ ts le. past ts k le;
              stay = λ e ts lo hi. past ts k hi ∙ inv.level k ts lo hi;
              payload = λ e quiet. (
                omega (arith, quiet, held_as k, sum_of-assign (pending_on k) n s.workers i goes lt),
                refl,
              );
            };
            others = λ k ts h l. (
              state_other inv.core i lt goes (commit_of w.tx) decision ts k
                  (omega (arith, h, claims-le-held_on k w)),
              refl,
            );
            settled = tt;
          })

  module _ (small : m < 2 ^ 48) (timestamp_history : Bool) (e : WriteElement)
      (rest : List WriteElement) (ph : w.phase ≡ stored (e ∷ rest)) where
    abbrev pub after_store : Worker
    after_store = record w { phase = storing rest }

    stores :
        (k : ℕ)
        → (held_on k w ≡ (if e.key == k then 1 else 0) + count k (write_keys rest))
          × (claims_on k w ≡ (if e.key == k then 1 else 0) + count k (write_keys rest))
          × (pending_on k w ≡ (if e.key == k then 1 else 0) + count k (write_keys rest))
    stores k = (
      ap (λ (p : Phase). held_on k (record w { phase = p })) ph,
      ap (λ (p : Phase). claims_on k (record w { phase = p })) ph,
      ap (λ (p : Phase). pending_on k (record w { phase = p })) ph,
    )

    abbrev new : Tuple
    new = record (s.table e.key) {
      tsw = record { lock = false; delta = 0; wts = w.tx.commit_ts % 2 ^ 48 };
      pre_tsw = if timestamp_history then e.tsw else (s.table e.key).pre_tsw;
    }

    abbrev t' : Table
    t' = assign s.table e.key new

    stamp : new.tsw.wts ≡ w.tx.commit_ts
    stamp = omega (arith, inv.core.commit_ts i lt, small)

    later : rts (s.table e.key).tsw < w.tx.commit_ts
    later = inv.core.claimed i e.key lt (ground (arith, stores e.key))

    same_val : (k : ℕ) → (t' k).val ≡ (s.table k).val
    same_val k = at_key (λ k v. v.val ≡ (s.table k).val) s.table e.key new k refl (λ o. refl)

    grows : (k : ℕ) → Grows (world n first s) (world n first (moved s i after_store t' s.history)) k
    grows k = record {
      wts =
          at_key (λ k v. (s.table k).tsw.wts ≤ v.tsw.wts) s.table e.key new k
            (omega (arith, stamp, later)) (λ o. omega arith);
      rts =
          at_key (λ k v. rts (s.table k).tsw ≤ rts v.tsw) s.table e.key new k
            (omega (arith, stamp, later)) (λ o. omega arith);
      past = λ ts le. refl;
      stay = λ still ts lo hi.
          at_key
            (λ k v.
              (s.table k).tsw.wts ≡ v.tsw.wts
              → (s.table k).tsw.wts ≤ ts
              → ts ≤ rts v.tsw
              → state_at first s.history ts k ≡ state_at first s.history (s.table k).tsw.wts k)
            s.table e.key new k (λ q lo hi. absurd (omega (arith, q, stamp, later)))
            (λ o q lo hi. inv.level k ts lo hi) still lo hi;
      payload = λ still quiet. (
        at_key
            (λ k v.
              (s.table k).tsw.wts ≡ v.tsw.wts
              → sum_of (pending_on k) n (assign s.workers i after_store) ≡ 0
              → sum_of (pending_on k) n s.workers ≡ 0)
            s.table e.key new k (λ q z. absurd (omega (arith, q, stamp, later)))
            (λ o q z.
              ground
                (arith, z, stores k, o, sum_of-assign (pending_on k) n s.workers i after_store lt))
            still quiet,
        same_val k,
      );
    }

    abbrev shown : ℕ → ℕ → Cell
    shown wts rts = record { lock = false; wts = wts; rts = rts; val = (s.table e.key).val }

    pub store_step :
        Inv n first
          (suc m)
          (moved s i after_store (store_word timestamp_history s.table e w.tx.commit_ts) s.history)
    unfolding store_word
    store_step =
        Keeps-Inv inv i lt after_store t' s.history
          (Stores.store_step inv.core i lt after_store e.key (cells t') (record {
            lists = stores;
            there =
                rw (==_refl e.key)
                  (ap (λ (c : ℕ). shown c (c + 0)) stamp ∙ ap (shown w.tx.commit_ts) (omega arith));
            elsewhere = λ k o. rw o refl;
            same_ts = refl;
            same_payload = refl;
            payload =
                subst (λ (p : Phase). IsSettled (world n first s) p w.tx) ph (inv.settled i lt);
          }))
          (record {
            words = λ k.
                at_key (λ k v. v.tsw.delta < 2 ^ 15) s.table e.key new k (omega arith)
                  (λ o. inv.words k);
            level = λ k ts.
                at_key
                  (λ k v.
                    v.tsw.wts ≤ ts
                    → ts ≤ rts v.tsw
                    → state_at first s.history ts k ≡ state_at first s.history v.tsw.wts k)
                  s.table e.key new k
                  (λ lo hi.
                    ap (λ (x : ℕ). state_at first s.history x e.key) (omega (arith, lo, hi)))
                  (λ o lo hi. inv.level k ts lo hi);
            grows = grows;
            others = λ k ts h l. (refl, same_val k);
            settled = tt;
          })
