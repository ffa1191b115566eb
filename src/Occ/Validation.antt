-- ===== src/Occ/Validation.antt =====
-- What the answers of `validationPhase` in occ/transaction.cc say about the history.
use ccbench.Common.{
  ℕ, zero, suc, ◌+◌, ◌-◌, ◌≤◌, ◌<◌, ◌≡◌, refl, sym, ap, ◌∙◌, inl, inr, true, false, ◌==◌, List, [],
  ◌∷◌, some, count, contains-count, contains, not-contains-count, length, drop, get_elem?,
  get_elem?-drop, All, All-zip, arith, Bool-cases,
}
use ccbench.Serial.{SetElement, Commit, Db}
use ccbench.Occ.Operations.{
  WriteSet, TxnExecutor, Shared, keys, base, index_of, is_negative, overlaps, check, validate,
  validation_phase,
}
use ccbench.Occ.History.{entry, entry-below, IsRewritten, IsObserved, IsWindow}

overlaps_none :
    (ks : List ℕ) (w : WriteSet) (k : ℕ) → overlaps ks w ≡ false → 1 ≤ count k ks → count k w ≡ 0
overlaps_none [] w k h m = absurd (omega arith)
overlaps_none (j ∷ ks) w k h m = ground (arith, not-contains-count j w, overlaps_none ks w k)

-- A check that succeeds has compared all the write sets of its rounds.
check_all :
    (ks : List ℕ) (rounds : ℕ) (ws : List WriteSet) (i : ℕ) {w : WriteSet}
    → check ks rounds ws ≡ some true
    → i < rounds
    → get_elem? ws i ≡ some w
    → overlaps ks w ≡ false
unfolding check
check_all ks zero ws i c h g = absurd (omega arith)
check_all ks (suc rounds) [] i c h g = cc
check_all ks (suc rounds) (v ∷ ws) zero c h g = ground arith
check_all ks (suc rounds) (v ∷ ws) (suc i) {w} c h g =
    ground (arith, check_all ks rounds ws i {w = w})

-- What a validation that succeeds has checked.
validate_success :
    (k : ℕ) (ks : List ℕ) (b e : ℕ) (ws : List WriteSet)
    → validate (k ∷ ks) b e ws ≡ some true
    → is_negative e ≡ false
    → (is_negative b ≡ false) × (check (k ∷ ks) (e - b) (drop b ws) ≡ some true)
unfolding validate
validate_success k ks b e ws v n = ground arith

keys_within :
    (es : List SetElement) (ks : List ℕ)
    → ((k : ℕ) → count k (keys es) ≤ count k ks)
    → All (λ (e : SetElement). 1 ≤ count e.key ks) es
keys_within [] ks h = tt
keys_within (e ∷ es) ks h = (ground (arith, h e.key), keys_within es ks (λ k. omega (arith, h k)))

-- A validation that succeeds leaves no key of the read set that a later transaction has written.
pub validated :
    (s : Shared) (log : List Commit) (x : TxnExecutor) (k : ℕ)
    → IsWindow s log
    → x.start_tx_id ≤ s.tx_id
    → s.tx_id ≡ length log
    → validation_phase s x ≡ some true
    → 1 ≤ count k (keys x.read_set)
    → ¬ IsRewritten log x.start_tx_id k
unfolding validation_phase
validated s log x k w st full v m r = by_keys (keys x.read_set) v m
  where
    b : ℕ
    b = index_of s x.start_tx_id

    e : ℕ
    e = index_of s s.tx_id

    by_keys : (ks : List ℕ) → validate ks b e s.ws_list ≡ some true → 1 ≤ count k ks → ⊥
    by_keys [] h m = absurd (omega arith)
    by_keys (j ∷ ks) h m = absurd (omega (arith, unwritten, r.writes))
      where
        below : r.id < s.tx_id
        below = omega (arith, full, entry-below r.id log r.found)

        checked : (is_negative b ≡ false) × (check (j ∷ ks) (e - b) (drop b s.ws_list) ≡ some true)
        checked = validate_success j ks b e s.ws_list h (ground (arith, w.size, w.small))

        begins : (base s ≤ x.start_tx_id) × (b ≡ x.start_tx_id - base s) × (e ≡ s.tx_id - base s)
        begins = ground (arith, checked.0, w.size, w.small, st)

        at_id : get_elem? (drop b s.ws_list) (r.id - x.start_tx_id) ≡ some r.by.writes
        at_id =
            get_elem?-drop b s.ws_list (r.id - x.start_tx_id)
            ∙ ap (get_elem? s.ws_list) (omega (arith, begins, r.since))
            ∙ w.holds r.id r.by (omega (arith, begins, r.since)) below r.found

        unwritten : count k r.by.writes ≡ 0
        unwritten =
            overlaps_none (j ∷ ks) r.by.writes k
              (check_all (j ∷ ks) (e - b) (drop b s.ws_list) (r.id - x.start_tx_id) checked.1
                (omega (arith, begins, below, r.since)) at_id)
              m

-- So after a validation that succeeds the database holds whatever was read.
pub validated_current :
    (s : Shared) (log : List Commit) (x : TxnExecutor) (db : Db)
    → IsWindow s log
    → x.start_tx_id ≤ s.tx_id
    → s.tx_id ≡ length log
    → validation_phase s x ≡ some true
    → All (IsObserved db log x.start_tx_id) x.read_set
    → All (λ (e : SetElement). db e.key ≡ e.val) x.read_set
validated_current s log x db w le full v =
    All-zip _ _ _
      (λ e m o. elim o [
        | inl same ↦ same
        | inr r ↦ absurd (validated s log x e.key w le full v m r)
      ])
      x.read_set (keys_within x.read_set (keys x.read_set) (λ k. omega arith))

overlaps_some :
    (ks : List ℕ) (w : WriteSet)
    → overlaps ks w ≡ true
    → (k : ℕ) × (1 ≤ count k ks) × (1 ≤ count k w)
overlaps_some [] w h = cc
overlaps_some (k ∷ ks) w h = elim (Bool-cases (contains k w)) [
  | inl hit ↦ (k, ground arith, contains-count k w hit)
  | inr miss ↦ let (j, m, g) = overlaps_some ks w (ground arith) in (j, ground arith, g)
]

-- A check that fails has met a write set with a key of the read set.
check-some :
    (ks : List ℕ) (rounds : ℕ) (ws : List WriteSet)
    → check ks rounds ws ≡ some false
    → (i : ℕ) × (w : WriteSet) × (i < rounds) × (get_elem? ws i ≡ some w) × (overlaps ks w ≡ true)
unfolding check
check-some ks zero ws h = cc
check-some ks (suc m) [] h = cc
check-some ks (suc m) (w ∷ ws) h = elim (Bool-cases (overlaps ks w)) [
  | inl hit ↦ (0, w, omega arith, refl, hit)
  | inr miss ↦
      let (i, v, l, g, o) = check-some ks m ws (ground arith) in (suc i, v, omega arith, g, o)
]

entry_total :
    (id : ℕ) (log : List Commit) → id < length log → (c : Commit) × (entry id log ≡ some c)
entry_total id [] h = absurd (ground arith)
entry_total id (c ∷ log) h = elim (Bool-cases (length log == id)) [
  | inl here ↦ (c, rw here refl)
  | inr there ↦ let (d, f) = entry_total id log (ground arith) in (d, rw there f)
]

-- A validation that fails has met a transaction that has rewritten a key of the read set.
pub rejected :
    (s : Shared) (log : List Commit) (x : TxnExecutor)
    → IsWindow s log
    → x.start_tx_id ≤ s.tx_id
    → s.tx_id ≡ length log
    → validation_phase s x ≡ some false
    → (k : ℕ) × (1 ≤ count k (keys x.read_set)) × IsRewritten log x.start_tx_id k
unfolding validation_phase validate
rejected s log x w st full v = by_keys (keys x.read_set) v
  where
    b : ℕ
    b = index_of s x.start_tx_id

    e : ℕ
    e = index_of s s.tx_id

    by_keys :
        (ks : List ℕ)
        → validate ks b e s.ws_list ≡ some false
        → (k : ℕ) × (1 ≤ count k ks) × IsRewritten log x.start_tx_id k
    by_keys [] h = cc
    by_keys (j ∷ ks) h =
        let begins : (base s ≤ x.start_tx_id)
            × (b ≡ x.start_tx_id - base s)
            × (e ≡ s.tx_id - base s) =
          ground (arith, w.size, w.small, st) in
        let failed : check (j ∷ ks) (e - b) (drop b s.ws_list) ≡ some false =
          ground (arith, w.size, w.small, st) in
        let (i, ws, l, g, o) = check-some (j ∷ ks) (e - b) (drop b s.ws_list) failed in
        let (k, m, hit) = overlaps_some (j ∷ ks) ws o in
        let (c, f) = entry_total (x.start_tx_id + i) log (omega (arith, begins, l, full)) in
        let same : get_elem? s.ws_list (b + i) ≡ some c.writes =
          ap (get_elem? s.ws_list) (omega (arith, begins))
          ∙ w.holds (x.start_tx_id + i) c (omega (arith, begins)) (omega (arith, begins, l)) f in
        let own : get_elem? s.ws_list (b + i) ≡ some ws = sym (get_elem?-drop b s.ws_list i) ∙ g in
        (
          k,
          m,
          record {
            id = x.start_tx_id + i;
            by = c;
            since = omega arith;
            found = f;
            writes = ground (arith, sym same ∙ own, hit);
          },
        )
