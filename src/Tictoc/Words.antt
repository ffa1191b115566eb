-- ===== src/Tictoc/Words.antt =====
-- The words of tictoc/include/tuple.hh as the code compares and extends them.
use ccbench.Common.{ℕ, ◌-◌, ◌^◌, ◌≤◌, ◌<◌, ◌≡◌, refl, true, false, arith}
use ccbench.Tictoc.Types.{TsWord, rts}
use ccbench.Tictoc.Operations.{extended, same_word}

-- For a commit timestamp above the `rts` of a word and below 2^48, the extension of the word ends
-- exactly there and leaves the lock bit alone; its delta fits 15 bits, and its `wts` is at least the old
-- one, and the old one if the distance to the commit timestamp fits 15 bits.
pub extended-exact :
    (v : TsWord) (commit_ts : ℕ)
    → rts v < commit_ts
    → commit_ts < 2 ^ 48
    → (rts (extended v commit_ts) ≡ commit_ts)
      × ((extended v commit_ts).lock ≡ v.lock)
      × ((extended v commit_ts).delta < 2 ^ 15)
      × (v.wts ≤ (extended v commit_ts).wts)
      × (commit_ts - v.wts < 2 ^ 15 → (extended v commit_ts).wts ≡ v.wts)
unfolding extended
extended-exact v c lt small = (omega arith, refl, omega arith, omega arith, λ fits. omega arith)

-- For words whose deltas fit 15 bits, the test of `read` after the copy succeeds exactly if the two
-- words agree in every field and are free.
pub same_word_iff :
    (v1 v2 : TsWord)
    → v1.delta < 2 ^ 15
    → v2.delta < 2 ^ 15
    → (same_word v1 v2 ≡ true
        → (v1.lock ≡ false) × (v2.lock ≡ false) × (v1.delta ≡ v2.delta) × (v1.wts ≡ v2.wts))
      × ((v1.lock ≡ false) × (v2.lock ≡ false) × (v1.delta ≡ v2.delta) × (v1.wts ≡ v2.wts)
          → same_word v1 v2 ≡ true)
unfolding same_word
same_word_iff v1 v2 d1 d2 = (λ s. ground (arith, s, d1, d2), λ h. ground (arith, h))
