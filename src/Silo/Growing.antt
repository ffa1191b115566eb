-- ===== src/Silo/Growing.antt =====
-- What a worker of silo/ knows stays true under the steps of the others.
use ccbench.Common.{
  ℕ, ◌≤◌, ◌<◌, ◌≡◌, sym, subst, ◌∙◌, inl, inr, List, [], ◌∷◌, All, All-map, arith, count,
}
use ccbench.Procedure.{Payload}
use ccbench.Silo.Tidword.{Tidword, version}
use ccbench.Silo.Operations.{ReadElement, WriteElement, TxnExecutor, write_keys}
use ccbench.Silo.Workers.{
  Phase, idle, leading, running, reading, copied, writing, locking, fenced, validating, unlocking,
  storing, releasing,
}
use ccbench.Silo.World.{
  World, IsFound, IsKnown, IsDated, IsRunning, IsStoring, IsSettled, Grows, Keeps,
}
use ccbench.Silo.Holding.{held}

-- Bounds on the versions of a list of tuples last, where the versions do.
module _ (f g : ℕ → ℕ) where
  All-kept :
      (P : ℕ → Type 0) (ws : List WriteElement)
      → ((k : ℕ) → 1 ≤ count k (write_keys ws) → g k ≡ f k)
      → All (λ (e : WriteElement). P (f e.key)) ws
      → All (λ (e : WriteElement). P (g e.key)) ws
  All-kept P [] own h = tt
  All-kept P (e ∷ ws) own h = (
    subst P (sym (own e.key (ground arith))) h.0,
    All-kept P ws (λ k c. own k (ground (arith, c))) h.1,
  )

module _ {a b : World} where
  pub IsStoring-grows :
      (x : TxnExecutor) (rest : List WriteElement)
      → ((k : ℕ) → 1 ≤ count k (write_keys rest) → b.ver k ≡ a.ver k)
      → IsStoring a x rest
      → IsStoring b x rest
  IsStoring-grows x rest own h = record {
    plain = h.plain;
    later = All-kept a.ver b.ver (λ (v : ℕ). v < version x.mrctid) rest own h.later;
    unlocks = h.unlocks;
  }

module _ {a b : World} (g : (k : ℕ) → Grows a b k) where
  pub IsFound-grows : (k : ℕ) (v : Tidword) (val : Payload) → IsFound a k v val → IsFound b k v val
  IsFound-grows k v val h = record {
    bound = omega (arith, h.bound, (g k).ver);
    value = λ same quiet.
        let still : a.ver k ≡ b.ver k = omega (arith, h.bound, (g k).ver, same) in
        let (before, same_val) = (g k).payload still quiet in
        h.value (omega (arith, same, still)) before ∙ sym same_val;
  }

  pub IsKnown-grows : (e : ReadElement) → IsKnown a e → IsKnown b e
  IsKnown-grows e = IsFound-grows e.key e.tidword e.val

  IsDated-grows : (c : ℕ) (e : ReadElement) → IsDated a c e → IsDated b c e
  IsDated-grows c e h = record {
    known = IsKnown-grows e h.known;
    dated = λ same.
        let still : a.ver e.key ≡ b.ver e.key = omega (arith, h.known.bound, (g e.key).ver, same) in
        omega (arith, (g e.key).same_wts still, h.dated (omega (arith, same, still)));
  }

  IsRunning-grows : (x : TxnExecutor) → IsRunning a x → IsRunning b x
  IsRunning-grows x h = record {
    known = All-map _ _ IsKnown-grows x.read_set h.known;
    room = h.room;
    plain = h.plain;
  }

  pub IsSettled-grows :
      (ph : Phase) (x : TxnExecutor) (c : ℕ)
      → ((k : ℕ) → 1 ≤ count k (held ph x.write_set) → Keeps a b k)
      → IsSettled a ph x c
      → IsSettled b ph x c
  IsSettled-grows idle x c own h = h
  IsSettled-grows (leading thread e) x c own h = h
  IsSettled-grows (running todo) x c own h = IsRunning-grows x h
  IsSettled-grows (reading key b' todo v) x c own h =
      (IsRunning-grows x h.0, omega (arith, h.1, (g key).ver))
  IsSettled-grows (copied key b' todo v val) x c own h =
      (IsRunning-grows x h.0, IsFound-grows key v val h.1)
  IsSettled-grows (writing key todo) x c own h = IsRunning-grows x h
  IsSettled-grows (locking done rest) x c own h = record {
    split = h.split;
    known = All-map _ _ IsKnown-grows x.read_set h.known;
    room = h.room;
    plain = h.plain;
    below =
        All-kept a.ver b.ver (λ (v : ℕ). v ≤ version x.max_wset) done (λ k c. (own k c).ver)
          h.below;
  }
  IsSettled-grows (fenced epoch) x c own h = record {
    dated = All-map _ _ (IsDated-grows c) x.read_set h.dated;
    room = h.room;
    plain = h.plain;
    below =
        All-kept a.ver b.ver (λ (v : ℕ). v ≤ version x.max_wset) x.write_set (λ k c. (own k c).ver)
          h.below;
  }
  IsSettled-grows (validating checked rest) x c own h = record {
    split = h.split;
    done =
        All-map _ _
          (λ e d. record {
            value = elim d.lasting [
              | inl before ↦ (g e.key).past c before ∙ d.value
              | inr mine ↦ (own e.key mine).at c ∙ d.value
            ];
            lasting = elim d.lasting [
              | inl before ↦ inl (omega (arith, (g e.key).rts))
              | inr mine ↦ inr mine
            ];
          })
          checked h.done;
    dated = All-map _ _ (IsDated-grows c) rest h.dated;
    room = h.room;
    plain = h.plain;
    below =
        All-kept a.ver b.ver (λ (v : ℕ). v ≤ version x.max_wset) x.write_set (λ k c. (own k c).ver)
          h.below;
  }
  IsSettled-grows (unlocking rest) x c own h = tt
  IsSettled-grows (storing rest) x c own h = IsStoring-grows x rest (λ k c. (own k c).ver) h
  IsSettled-grows (releasing []) x c own h = (IsStoring-grows x [] (λ k c. (own k c).ver) h.0, tt)
  IsSettled-grows (releasing (e ∷ rest)) x c own h = (
    IsStoring-grows x (e ∷ rest) (λ k c. (own k c).ver) h.0,
    (own e.key (ground arith)).val ∙ h.1,
  )
