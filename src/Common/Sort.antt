-- ===== src/Common/Sort.antt =====
-- `std::sort` of elements by their keys.
use Prim.Native.Nat.{ℕ}
use mathlib.Core.Path.{◌≡◌, refl}
use mathlib.Core.List.{List, [], ◌∷◌, map}
use native.Mathlib.Omega.{arith}
use ccbench.Common.Tests.{leb, if◌then◌else◌, if_both}
use ccbench.Common.Lists.{contains, All}

module _ {ℓ} {A : Type ℓ} (key : A → ℕ) where
  abbrev pub insert : A → List A → List A
  insert w [] = w ∷ []
  insert w (v ∷ vs) = if leb (key w) (key v) then w ∷ v ∷ vs else v ∷ insert w vs

  abbrev pub sort : List A → List A
  sort [] = []
  sort (w ∷ ws) = insert w (sort ws)

  contains-insert :
      (k : ℕ) (w : A) (ws : List A)
      → contains k (map key (insert w ws)) ≡ contains k (map key (w ∷ ws))
  contains-insert k w [] = refl
  contains-insert k w (v ∷ vs) = ground (arith, contains-insert k w vs)

  pub contains-sort :
      (k : ℕ) (ws : List A) → contains k (map key (sort ws)) ≡ contains k (map key ws)
  contains-sort k [] = refl
  contains-sort k (w ∷ ws) = ground (arith, contains-insert k w (sort ws), contains-sort k ws)

  All-insert : (P : A → Type 0) (w : A) (ws : List A) → P w → All P ws → All P (insert w ws)
  All-insert P w [] p h = (p, tt)
  All-insert P w (v ∷ vs) p h =
      if_both (All P) (leb (key w) (key v)) _ _ (p, h) (h.0, All-insert P w vs p h.1)

  pub All-sort : (P : A → Type 0) (ws : List A) → All P ws → All P (sort ws)
  All-sort P [] h = tt
  All-sort P (w ∷ ws) h = All-insert P w (sort ws) h.0 (All-sort P ws h.1)
