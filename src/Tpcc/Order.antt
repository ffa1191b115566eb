-- ===== src/Tpcc/Order.antt =====
-- tpcc_silo/tpcc/tpcc_tables.hpp: `SimpleKey::compare`, and the order that it gives the keys.
use ccbench.Common.{
  ℕ, zero, suc, ◌+◌, ◌*◌, ◌<◌, ◌≡◌, ltb, ◌==◌, if◌then◌else◌, List, [], ◌∷◌, arith,
}
use ccbench.Tpcc.Memory.{Buffer, load, AreBytes}
use ccbench.Tpcc.Numbers.{number, key_number}

-- The sign of what `memcmp` returns.
pub data Sign : Type 0 where
  below same above : Sign

abbrev pub sign_of : ℕ → ℕ → Sign
sign_of a b = if ltb a b then below else if a == b then same else above

-- The first that decides.
abbrev pub or_else : Sign → Sign → Sign
or_else same s = s
or_else s _ = s

unfoldable pub memcmp : List ℕ → List ℕ → Sign
memcmp (a ∷ ks) (b ∷ bs) = or_else (sign_of a b) (memcmp ks bs)
memcmp _ _ = same

unfoldable pub compare : (key rhs : Buffer) → Sign
unfolding memcmp
compare key rhs = memcmp (load 8 0 key) (load 8 0 rhs)

number-lt :
    (n : ℕ) (ks bs : List ℕ) (x y : ℕ)
    → AreBytes n ks
    → AreBytes n bs
    → x < y
    → number x ks < number y bs
number-lt zero [] [] x y ha hb lt = lt
number-lt zero (a ∷ ks) bs x y ha hb lt = elim ha [ ]
number-lt zero [] (b ∷ bs) x y ha hb lt = elim hb [ ]
number-lt (suc n) [] bs x y ha hb lt = elim ha [ ]
number-lt (suc n) (a ∷ ks) [] x y ha hb lt = elim hb [ ]
number-lt (suc n) (a ∷ ks) (b ∷ bs) x y ha hb lt =
    number-lt n ks bs (x * 256 + a) (y * 256 + b) ha.1 hb.1 (omega (arith, ha.0, lt))

-- Bytes compare as the numbers that they show.
memcmp-sign_of :
    (n : ℕ) (ks bs : List ℕ) (x : ℕ)
    → AreBytes n ks
    → AreBytes n bs
    → memcmp ks bs ≡ sign_of (number x ks) (number x bs)
unfolding memcmp
memcmp-sign_of zero [] [] x ha hb = ground arith
memcmp-sign_of zero (a ∷ ks) bs x ha hb = elim ha [ ]
memcmp-sign_of zero [] (b ∷ bs) x ha hb = elim hb [ ]
memcmp-sign_of (suc n) [] bs x ha hb = elim ha [ ]
memcmp-sign_of (suc n) (a ∷ ks) [] x ha hb = elim hb [ ]
memcmp-sign_of (suc n) (a ∷ ks) (b ∷ bs) x ha hb = ground (
  arith,
  memcmp-sign_of n ks bs (x * 256 + a) ha.1 hb.1,
  number-lt n ks bs (x * 256 + a) (x * 256 + b) ha.1 hb.1,
  number-lt n bs ks (x * 256 + b) (x * 256 + a) hb.1 ha.1,
)

-- Of `SimpleKey`: the eight bytes of a key.
pub compare-sign_of :
    (key rhs : Buffer)
    → AreBytes 8 (load 8 0 key)
    → AreBytes 8 (load 8 0 rhs)
    → compare key rhs ≡ sign_of (key_number key) (key_number rhs)
unfolding compare
compare-sign_of key rhs = memcmp-sign_of 8 (load 8 0 key) (load 8 0 rhs) 0
