-- ===== src/Tpcc/Bytes.antt =====
-- The keys of tpcc_silo/ are eight bytes, whatever the memory held that they are written to.
use ccbench.Common.{ℕ, arith}
use ccbench.Tpcc.Memory.{Buffer, load, AreBytes, assign_as_bigendian-reverse}
use ccbench.Tpcc.Keys.{
  warehouse_key, district_key, CustomerKey, create, order_key, order_line_key, item_key, stock_key,
}

pub create-AreBytes : (key : CustomerKey) (out : Buffer) → AreBytes 8 (load 8 0 (create key out))
unfolding create
create-AreBytes key out =
    rw
      (
        assign_as_bigendian-reverse 2 key.w_id,
        assign_as_bigendian-reverse 1 key.d_id,
        assign_as_bigendian-reverse 4 key.c_id,
      )
      (ground arith)

pub order_line_key-AreBytes :
    (w d o l : ℕ) (out : Buffer) → AreBytes 8 (load 8 0 (order_line_key w d o l out))
unfolding order_line_key
order_line_key-AreBytes w d o l out =
    rw
      (
        assign_as_bigendian-reverse 2 w,
        assign_as_bigendian-reverse 1 d,
        assign_as_bigendian-reverse 4 o,
        assign_as_bigendian-reverse 1 l,
      )
      (ground arith)

pub warehouse_key-AreBytes : (w : ℕ) (out : Buffer) → AreBytes 8 (load 8 0 (warehouse_key w out))
unfolding warehouse_key
warehouse_key-AreBytes w out = rw (assign_as_bigendian-reverse 2 w) (ground arith)

pub district_key-AreBytes : (w d : ℕ) (out : Buffer) → AreBytes 8 (load 8 0 (district_key w d out))
unfolding district_key
district_key-AreBytes w d out =
    rw (assign_as_bigendian-reverse 2 w, assign_as_bigendian-reverse 1 d) (ground arith)

pub order_key-AreBytes : (w d o : ℕ) (out : Buffer) → AreBytes 8 (load 8 0 (order_key w d o out))
unfolding order_key
order_key-AreBytes w d o out =
    rw
      (
        assign_as_bigendian-reverse 2 w,
        assign_as_bigendian-reverse 1 d,
        assign_as_bigendian-reverse 4 o,
      )
      (ground arith)

pub item_key-AreBytes : (i : ℕ) (out : Buffer) → AreBytes 8 (load 8 0 (item_key i out))
unfolding item_key
item_key-AreBytes i out = rw (assign_as_bigendian-reverse 4 i) (ground arith)

pub stock_key-AreBytes : (w i : ℕ) (out : Buffer) → AreBytes 8 (load 8 0 (stock_key w i out))
unfolding stock_key
stock_key-AreBytes w i out =
    rw (assign_as_bigendian-reverse 2 w, assign_as_bigendian-reverse 4 i) (ground arith)
