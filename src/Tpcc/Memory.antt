-- ===== src/Tpcc/Memory.antt =====
-- tpcc_silo/tpcc/tpcc_util.hpp: `byteswap`, `assign_as_bigendian` and `parse_bigendian`, on memory of a
-- machine that keeps the least significant byte of an integer first, as the source takes it to do.
use ccbench.Common.{
  ℕ, zero, suc, ◌+◌, ◌*◌, ◌/◌, ◌%◌, ◌<◌, ◌≡◌, refl, ap, List, [], ◌∷◌, ◌++◌, arith,
}
use ccbench.Common.Family.{assign}

abbrev pub Buffer : Type 0
Buffer = ℕ → ℕ

-- `memcpy` into a buffer, and out of it.
abbrev pub store : List ℕ → ℕ → Buffer → Buffer
store [] at m = m
store (b ∷ bs) at m = store bs (suc at) (assign m at b)

abbrev pub load : ℕ → ℕ → Buffer → List ℕ
load zero at m = []
load (suc n) at m = m at ∷ load n (suc at) m

-- The bytes of an integer in memory, and the integer that bytes hold.
abbrev pub bytes : ℕ → ℕ → List ℕ
bytes zero v = []
bytes (suc n) v = v % 256 ∷ bytes n (v / 256)

abbrev pub int_of : List ℕ → ℕ
int_of [] = 0
int_of (b ∷ bs) = b + 256 * int_of bs

abbrev pub reverse : List ℕ → List ℕ
reverse [] = []
reverse (b ∷ bs) = reverse bs ++ b ∷ []

unfoldable pub byteswap : (size value : ℕ) → ℕ
byteswap size value = int_of (reverse (bytes size value))

unfoldable pub assign_as_bigendian : (size value at : ℕ) → Buffer → Buffer
unfolding byteswap
assign_as_bigendian size value at out = store (bytes size (byteswap size value)) at out

unfoldable pub parse_bigendian : (size at : ℕ) → Buffer → ℕ
unfolding byteswap
parse_bigendian size at buf = byteswap size (int_of (load size at buf))

abbrev pub IsByte : ℕ → Type 0
IsByte b = b < 256

abbrev pub AreBytes : ℕ → List ℕ → Type 0
AreBytes zero [] = Unit
AreBytes zero (b ∷ bs) = ⊥
AreBytes (suc n) [] = ⊥
AreBytes (suc n) (b ∷ bs) = IsByte b × AreBytes n bs

bytes-int_of : (n : ℕ) (bs : List ℕ) → AreBytes n bs → bytes n (int_of bs) ≡ bs
bytes-int_of zero [] h = refl
bytes-int_of zero (b ∷ bs) h = elim h [ ]
bytes-int_of (suc n) [] h = elim h [ ]
bytes-int_of (suc n) (b ∷ bs) h =
    let tail = bytes-int_of n bs h.1 in
    let low : (b + 256 * int_of bs) % 256 ≡ b = omega (arith, h.0) in
    let high : (b + 256 * int_of bs) / 256 ≡ int_of bs = omega (arith, h.0) in
    rw (low, high, tail) refl

bytes-AreBytes : (n v : ℕ) → AreBytes n (bytes n v)
bytes-AreBytes zero v = tt
bytes-AreBytes (suc n) v = (omega arith, bytes-AreBytes n (v / 256))

snoc-AreBytes :
    (n : ℕ) (bs : List ℕ) (b : ℕ) → AreBytes n bs → b < 256 → AreBytes (suc n) (bs ++ b ∷ [])
snoc-AreBytes zero [] b h lt = (lt, tt)
snoc-AreBytes zero (c ∷ bs) b h lt = elim h [ ]
snoc-AreBytes (suc n) [] b h lt = elim h [ ]
snoc-AreBytes (suc n) (c ∷ bs) b h lt = (h.0, snoc-AreBytes n bs b h.1 lt)

reverse-AreBytes : (n : ℕ) (bs : List ℕ) → AreBytes n bs → AreBytes n (reverse bs)
reverse-AreBytes zero [] h = tt
reverse-AreBytes zero (b ∷ bs) h = elim h [ ]
reverse-AreBytes (suc n) [] h = elim h [ ]
reverse-AreBytes (suc n) (b ∷ bs) h = snoc-AreBytes n (reverse bs) b (reverse-AreBytes n bs h.1) h.0

-- In the bytes of a swapped integer the most significant comes first.
pub bytes-byteswap : (n v : ℕ) → bytes n (byteswap n v) ≡ reverse (bytes n v)
unfolding byteswap
bytes-byteswap n v =
    bytes-int_of n (reverse (bytes n v)) (reverse-AreBytes n (bytes n v) (bytes-AreBytes n v))

pub assign_as_bigendian-reverse :
    (size value at : ℕ) (out : Buffer)
    → assign_as_bigendian size value at out ≡ store (reverse (bytes size value)) at out
unfolding assign_as_bigendian
assign_as_bigendian-reverse size value at out =
    ap (λ bs. store bs at out) (bytes-byteswap size value)

-- And to parse is to put the least significant first.
pub parse_bigendian-reverse :
    (size at : ℕ) (buf : Buffer)
    → AreBytes size (load size at buf)
    → parse_bigendian size at buf ≡ int_of (reverse (load size at buf))
unfolding parse_bigendian byteswap
parse_bigendian-reverse size at buf h =
    ap (λ bs. int_of (reverse bs)) (bytes-int_of size (load size at buf) h)
