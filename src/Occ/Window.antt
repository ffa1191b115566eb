-- ===== src/Occ/Window.antt =====
-- `gc` and the end of `writePhase` in occ/transaction.cc keep `ws_list` a part of the history.
use ccbench.Common.{
  ℕ, zero, suc, ◌+◌, ◌-◌, ◌^◌, ◌≤◌, ◌<◌, ◌≡◌, refl, ap, ◌∙◌, inl, inr, Bool, true, ◌==◌, ltb, ◌&&◌,
  List, [], ◌∷◌, ◌++◌, some, length, length-append, get_elem?, get_elem?-drop,
  get_elem?-append_left, get_elem?-append_last, length-drop, arith, Bool-cases, ==_iff, ==_refl,
}
use ccbench.Common.Family.{assign}
use ccbench.Serial.{Commit}
use ccbench.Occ.Operations.{TxnExecutor, Shared, base, slowest, gc, publish, deletions}
use ccbench.Occ.History.{entry, IsWindow}

slowest-le : (n : ℕ) (f : ℕ → ℕ) (i : ℕ) → i < n → slowest n f ≤ f i
unfolding slowest
slowest-le zero f i h = absurd (omega arith)
slowest-le (suc zero) f zero h = omega arith
slowest-le (suc zero) f (suc i) h = absurd (omega arith)
slowest-le (suc (suc n)) f i h = elim (Bool-cases (i == suc n)) [
  | inl last ↦ ground (arith, ap f ((==_iff i (suc n)).0 last))
  | inr before ↦ ground (arith, slowest-le (suc n) f i)
]

-- `gc` moves the window, if the slowest worker has committed in it.
gc-IsWindow :
    (threshold n : ℕ) (s : Shared) (log : List Commit)
    → IsWindow s log
    → slowest n s.progress < s.tx_id
    → IsWindow (gc threshold n s) log
unfolding gc
gc-IsWindow threshold n s log w h = elim (Bool-cases collects) [
  | inl fires ↦ rw fires (record {
    size = omega (arith, length-drop (deletions n s) s.ws_list, moved fires, w.size, h);
    small = w.small;
    word = omega (arith, w.small, h);
    holds = λ id c lo hi e.
        get_elem?-drop (deletions n s) s.ws_list _
        ∙ ap (get_elem? s.ws_list) (omega (arith, moved fires, lo, w.small, h))
        ∙ w.holds id c (omega (arith, moved fires, lo, w.small, h)) hi e;
  })
  | inr idles ↦ rw idles w
]
  where
    collects : Bool
    collects =
        ltb threshold (length s.ws_list) && ltb 0 (deletions n s) && ltb (deletions n s) (2 ^ 31)

    moved :
        collects ≡ true → (deletions n s + base s ≡ slowest n s.progress + 1) × (1 ≤ deletions n s)
    moved fires = ground (arith, w.size, w.small, w.word, h)

-- What `publish` leaves: the next id, the window with one more write set, and all else as it was.
pub record IsPublished (s s' : Shared) (log : List Commit) : Type 0 where
  pub window : IsWindow s' log
  pub next_id : s'.tx_id ≡ s.tx_id + 1
  pub same_table : s'.table ≡ s.table
  pub same_lock : s'.global_lock ≡ s.global_lock

gc_rest :
    (threshold n : ℕ) (s : Shared)
    → ((gc threshold n s).tx_id ≡ s.tx_id)
      × ((gc threshold n s).table ≡ s.table)
      × ((gc threshold n s).global_lock ≡ s.global_lock)
      × ((gc threshold n s).progress ≡ s.progress)
unfolding gc
gc_rest threshold n s =
    elim (Bool-cases
      (ltb threshold (length s.ws_list) && ltb 0 (deletions n s) && ltb (deletions n s) (2 ^ 31))) [
        | inl fires ↦ rw fires (refl, refl, refl, refl)
        | inr idles ↦ rw idles (refl, refl, refl, refl)
      ]

pub publish-IsPublished :
    (threshold n thid : ℕ) (s : Shared) (x : TxnExecutor) (log : List Commit) (c : Commit)
    → IsWindow s log
    → thid < n
    → s.tx_id + 1 < 2 ^ 31
    → entry s.tx_id log ≡ some c
    → c.writes ≡ x.write_set
    → IsPublished s (publish threshold n thid s x) log
unfolding publish
publish-IsPublished threshold n thid s x log c w lt small e ws = record {
  window =
      gc-IsWindow threshold n pushed log pushed_window
        (omega (arith, slowest-le n pushed.progress thid lt, self));
  next_id = (gc_rest threshold n pushed).0;
  same_table = (gc_rest threshold n pushed).1;
  same_lock = (gc_rest threshold n pushed).2;
}
  where
    pushed : Shared
    pushed = record s {
      ws_list = s.ws_list ++ x.write_set ∷ [];
      progress = assign s.progress thid s.tx_id;
      tx_id = s.tx_id + 1;
    }

    self : pushed.progress thid ≡ s.tx_id
    self = rw (==_refl thid) refl

    pushed_window : IsWindow pushed log
    pushed_window = record {
      size = omega (arith, length-append s.ws_list (x.write_set ∷ []), w.size);
      small = small;
      word = w.word;
      holds = λ id d lo hi f. elim (Bool-cases (id == s.tx_id)) [
        | inl new ↦
            let same : id ≡ s.tx_id = (==_iff id s.tx_id).0 new in
            get_elem?-append_last s.ws_list x.write_set (id - base s) (omega (arith, same, w.size))
            ∙ cc (ap (λ (j : ℕ). entry j log) same)
        | inr old ↦
            get_elem?-append_left s.ws_list _ (id - base s) (ground (arith, w.size))
            ∙ w.holds id d lo (ground arith) f
      ];
    }
