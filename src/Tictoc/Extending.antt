-- ===== src/Tictoc/Extending.antt =====
-- The step of tictoc/ that extends `rts`.
use ccbench.Common.{
  ℕ, suc, ◌+◌, ◌^◌, ◌≤◌, ◌<◌, ◌≡◌, refl, sym, ap, subst, ◌∙◌, inl, true, false, List, [], ◌∷◌, ◌++◌,
  All-append, arith,
}
use mathlib.Core.List.{append_assoc}
use ccbench.Common.Family.{assign, at_key, sum_of, sum_of-assign, le-sum_of}
use ccbench.Serial.{Db}
use ccbench.Tictoc.Types.{TsWord, Tuple, Table, rts, SetElement, write_keys}
use ccbench.Tictoc.Operations.{extended, extend_tuple}
use ccbench.Timestamps.History.{state_at}
use ccbench.Timestamps.Protocol.{bit}
use ccbench.Timestamps.Invariant.{free-held, free-quiet}
use ccbench.Timestamps.Calm.{IsCalm, calm_step}
use ccbench.Tictoc.Workers.{Worker, Phase, System, validating}
use ccbench.Tictoc.World.{
  World, Grows, held_on, pending_on, claims_on, IsSettled, IsSettled-grows, IsChecked, IsValidating,
  IsKnown,
}
use ccbench.Tictoc.Invariant.{world, cells, IsLevel, Inv, moved, Keeps-Inv, claims-le-held_on}

-- The extension ends at `commit_ts`, and `wts` moves on by a multiple of 2^15.
extended_lem :
    (v : TsWord) (c : ℕ)
    → rts v < c
    → c < 2 ^ 48
    → (rts (extended v c) ≡ c)
      × (v.wts ≤ (extended v c).wts)
      × ((extended v c).delta < 2 ^ 15)
      × ((extended v c).lock ≡ v.lock)
unfolding extended
extended_lem v c lt small = (omega arith, omega arith, omega arith, refl)

module _ {n : ℕ} {first : Db} {m : ℕ} {s : System} (inv : Inv n first m s) (i : ℕ) (lt : i < n)
    (small : m < 2 ^ 48) where
  abbrev pub w : Worker
  w = s.workers i

  module _ (checked rest : List SetElement) (e : SetElement)
      (ph : w.phase ≡ validating checked (e ∷ rest)) where
    before : IsValidating (world n first s) w.tx checked (e ∷ rest)
    before = subst (λ (p : Phase). IsSettled (world n first s) p w.tx) ph (inv.settled i lt)

    abbrev pub goes : Worker
    goes = record w { phase = validating (checked ++ e ∷ []) rest }

    -- A round that passes, in the world after it.
    pub passed :
        (ω : World)
        → IsValidating ω w.tx checked (e ∷ rest)
        → IsChecked ω w.tx.commit_ts (write_keys w.tx.write_set) e
        → IsValidating ω w.tx (checked ++ e ∷ []) rest
    passed ω v c = record {
      split = append_assoc checked (e ∷ []) rest ∙ v.split;
      done = All-append _ checked _ v.done (c, tt);
      known = v.known.1;
      above = v.above.1;
    }

    held_as :
        (k : ℕ)
        → (held_on k w ≡ held_on k goes) × (pending_on k w ≡ 0) × (claims_on k w ≡ claims_on k goes)
    held_as k = (
      ap (λ (p : Phase). held_on k (record w { phase = p })) ph,
      ap (λ (p : Phase). pending_on k (record w { phase = p })) ph,
      ap (λ (p : Phase). claims_on k (record w { phase = p })) ph,
    )

    module _ (free : (s.table e.key).tsw.lock ≡ false)
        (below : rts (s.table e.key).tsw < w.tx.commit_ts)
        (same : e.tsw.wts ≡ (s.table e.key).tsw.wts) where
      abbrev new : Tuple
      new = record (s.table e.key) { tsw = extended (s.table e.key).tsw w.tx.commit_ts }

      abbrev t' : Table
      t' = assign s.table e.key new

      bound : w.tx.commit_ts ≤ m
      bound = inv.core.commit_ts i lt

      x :
          (rts new.tsw ≡ w.tx.commit_ts)
          × ((s.table e.key).tsw.wts ≤ new.tsw.wts)
          × (new.tsw.delta < 2 ^ 15)
          × (new.tsw.lock ≡ (s.table e.key).tsw.lock)
      x = extended_lem (s.table e.key).tsw w.tx.commit_ts below (omega (arith, bound))

      quiet_key : sum_of (pending_on e.key) n s.workers ≡ 0
      quiet_key = free-quiet inv.core e.key free

      same_val : (k : ℕ) → (t' k).val ≡ (s.table k).val
      same_val k = at_key (λ k v. v.val ≡ (s.table k).val) s.table e.key new k refl (λ o. refl)

      grows : (k : ℕ) → Grows (world n first s) (world n first (moved s i goes t' s.history)) k
      grows k = record {
        wts =
            at_key (λ k v. (s.table k).tsw.wts ≤ v.tsw.wts) s.table e.key new k x.1
              (λ o. omega arith);
        rts =
            at_key (λ k v. rts (s.table k).tsw ≤ rts v.tsw) s.table e.key new k
              (omega (arith, x, below)) (λ o. omega arith);
        past = λ ts le. refl;
        stay = λ still ts lo hi.
            at_key
              (λ k v.
                (s.table k).tsw.wts ≤ ts
                → ts ≤ rts v.tsw
                → state_at first s.history ts k ≡ state_at first s.history (s.table k).tsw.wts k)
              s.table e.key new k
              (λ lo hi.
                inv.core.current e.key ts quiet_key lo
                ∙ sym (inv.core.current e.key (s.table e.key).tsw.wts quiet_key (omega arith)))
              (λ o lo hi. inv.level k ts lo hi) lo hi;
        payload = λ still quiet. (
          omega (
            arith,
            quiet,
            held_as k,
            sum_of-assign (pending_on k) n s.workers i goes lt,
            le-sum_of (pending_on k) n s.workers i lt,
          ),
          same_val k,
        );
      }

      known : IsKnown (world n first s) e
      known = before.known.0

      extended-IsChecked :
          IsChecked
            (world n first (moved s i goes t' s.history))
            w.tx.commit_ts
            (write_keys w.tx.write_set)
            e
      extended-IsChecked = record {
        value =
            inv.core.current e.key w.tx.commit_ts quiet_key (omega (arith, below))
            ∙ sym (inv.core.current e.key e.tsw.wts quiet_key (omega (arith, same)))
            ∙ known.value e.tsw.wts (omega arith) (inl (omega arith));
        lasting = inl (
            at_key (λ k v. (k ≡ e.key) → w.tx.commit_ts ≤ rts v.tsw) s.table e.key new e.key
              (λ q. omega (arith, x)) (λ o q. absurd (ground (arith, o))) refl);
      }

      calm : IsCalm inv.core i lt goes (cells t')
      calm = record {
        wts_up = λ k. (grows k).wts;
        rts_up = λ k. (grows k).rts;
        range = λ k. omega arith;
        table_ts = λ k.
            at_key (λ k v. rts v.tsw ≤ suc m) s.table e.key new k (omega (arith, x, bound))
              (λ o. omega (arith, inv.core.table_ts k));
        frozen = λ k h l.
            at_key (λ k v. (s.table k).tsw.lock ≡ true → rts v.tsw ≡ rts (s.table k).tsw) s.table
              e.key new k (λ l. absurd (ground (arith, free, l))) (λ o l. refl) l;
        same_val = λ k h. same_val k;
        locks = λ k.
            at_key (λ k v. held_on k goes + bit (s.table k).tsw.lock ≡ held_on k w + bit v.tsw.lock)
              s.table e.key new k (omega (arith, held_as e.key, ap bit x.3))
              (λ o. omega (arith, held_as k));
        same_pending = λ k. omega (arith, held_as k);
        same_write = λ k h. absurd (omega (arith, h));
        commit_ts = omega (arith, bound);
        claimed = λ k h.
            at_key (λ k v. 1 ≤ claims_on k w → rts v.tsw < w.tx.commit_ts) s.table e.key new k
              (λ h.
                absurd
                  (omega (arith, h, claims-le-held_on e.key w, free-held inv.core i e.key lt free)))
              (λ o h. inv.core.claimed i k lt h) (omega (arith, h, held_as k));
      }

      level : (k : ℕ) → IsLevel first (moved s i goes t' s.history) k
      level k ts =
          at_key
            (λ k v.
              v.tsw.wts ≤ ts
              → ts ≤ rts v.tsw
              → state_at first s.history ts k ≡ state_at first s.history v.tsw.wts k)
            s.table e.key new k
            (λ lo hi.
              inv.core.current e.key ts quiet_key (omega (arith, x, lo))
              ∙ sym (inv.core.current e.key new.tsw.wts quiet_key x.1))
            (λ o lo hi. inv.level k ts lo hi)

      pub extend_step :
          Inv n first (suc m) (moved s i goes (extend_tuple s.table e.key w.tx.commit_ts) s.history)
      unfolding extend_tuple
      extend_step =
          Keeps-Inv inv i lt goes t' s.history (calm_step inv.core i lt goes (cells t') calm)
            (record {
              words = λ k.
                  at_key (λ k v. v.tsw.delta < 2 ^ 15) s.table e.key new k x.2 (λ o. inv.words k);
              level = level;
              grows = grows;
              others = λ k ts h l. (refl, same_val k);
              settled =
                  passed _
                    (IsSettled-grows grows (λ k. omega arith) (validating checked (e ∷ rest)) w.tx
                      (λ k ts h. (refl, same_val k)) before)
                    extended-IsChecked;
            })
