-- ===== src/Tpcc/Numbers.antt =====
-- The keys of tpcc_silo/ as numbers of eight bytes, the most significant first.
use ccbench.Common.{ℕ, ◌+◌, ◌*◌, ◌^◌, ◌<◌, ◌≡◌, List, [], ◌∷◌, arith}
use ccbench.Tpcc.Memory.{Buffer, load, assign_as_bigendian-reverse}
use ccbench.Tpcc.Keys.{
  warehouse_key, district_key, CustomerKey, create, order_key, order_line_key, item_key, stock_key,
}

-- The number that bytes show after those that show `n`.
abbrev pub number : ℕ → List ℕ → ℕ
number n [] = n
number n (b ∷ bs) = number (n * 256 + b) bs

abbrev pub key_number : Buffer → ℕ
key_number key = number 0 (load 8 0 key)

-- The fields fit their types.
abbrev pub Fits : CustomerKey → Type 0
Fits key = (key.w_id < 2 ^ 16) × (key.d_id < 2 ^ 8) × (key.c_id < 2 ^ 32)

pub create-number :
    (key : CustomerKey) (out : Buffer)
    → Fits key
    → key_number (create key out) ≡ key.w_id * 2 ^ 48 + key.d_id * 2 ^ 32 + key.c_id
unfolding create
create-number key out (hw, hd, hc) =
    rw
      (
        assign_as_bigendian-reverse 2 key.w_id,
        assign_as_bigendian-reverse 1 key.d_id,
        assign_as_bigendian-reverse 4 key.c_id,
      )
      (omega arith)

module _ (w : ℕ) (out : Buffer) (hw : w < 2 ^ 16) where
  pub warehouse_key-number : key_number (warehouse_key w out) ≡ w
  unfolding warehouse_key
  warehouse_key-number = rw (assign_as_bigendian-reverse 2 w) (omega arith)

  pub district_key-number : (d : ℕ) → d < 2 ^ 8 → key_number (district_key w d out) ≡ w * 2 ^ 8 + d
  unfolding district_key
  district_key-number d hd =
      rw (assign_as_bigendian-reverse 2 w, assign_as_bigendian-reverse 1 d) (omega arith)

  pub order_key-number :
      (d o : ℕ)
      → d < 2 ^ 8
      → o < 2 ^ 32
      → key_number (order_key w d o out) ≡ w * 2 ^ 48 + d * 2 ^ 32 + o
  unfolding order_key
  order_key-number d o hd ho =
      rw
        (
          assign_as_bigendian-reverse 2 w,
          assign_as_bigendian-reverse 1 d,
          assign_as_bigendian-reverse 4 o,
        )
        (omega arith)

  pub order_line_key-number :
      (d o l : ℕ)
      → d < 2 ^ 8
      → o < 2 ^ 32
      → l < 2 ^ 8
      → key_number (order_line_key w d o l out) ≡ w * 2 ^ 48 + d * 2 ^ 40 + o * 2 ^ 8 + l
  unfolding order_line_key
  order_line_key-number d o l hd ho hl =
      rw
        (
          assign_as_bigendian-reverse 2 w,
          assign_as_bigendian-reverse 1 d,
          assign_as_bigendian-reverse 4 o,
          assign_as_bigendian-reverse 1 l,
        )
        (omega arith)

  pub stock_key-number : (i : ℕ) → i < 2 ^ 32 → key_number (stock_key w i out) ≡ w * 2 ^ 32 + i
  unfolding stock_key
  stock_key-number i hi =
      rw (assign_as_bigendian-reverse 2 w, assign_as_bigendian-reverse 4 i) (omega arith)

pub item_key-number : (i : ℕ) (out : Buffer) → i < 2 ^ 32 → key_number (item_key i out) ≡ i
unfolding item_key
item_key-number i out hi = rw (assign_as_bigendian-reverse 4 i) (omega arith)
