-- ===== src/Tpcc/Keys.antt =====
-- tpcc_silo/tpcc/tpcc_tables.hpp: the keys of the tables, each of eight bytes that `CreateKey` writes to
-- `out`, and the customer key that is parsed.
use ccbench.Common.{ℕ, zero, suc, List, [], ◌∷◌}
use ccbench.Common.Family.{assign}
use ccbench.Tpcc.Memory.{Buffer, store, assign_as_bigendian, parse_bigendian}

-- `memset` with zeros.
abbrev pub zeros : ℕ → List ℕ
zeros zero = []
zeros (suc n) = 0 ∷ zeros n

unfoldable pub warehouse_key : (w_id : ℕ) → Buffer → Buffer
warehouse_key w_id out = assign_as_bigendian 2 w_id 6 (store (zeros 6) 0 out)

unfoldable pub district_key : (w_id d_id : ℕ) → Buffer → Buffer
district_key w_id d_id out =
    assign_as_bigendian 1 d_id 7 (assign_as_bigendian 2 w_id 5 (store (zeros 5) 0 out))

pub record CustomerKey : Type 0 where
  pub w_id : ℕ
  pub d_id : ℕ
  pub c_id : ℕ

unfoldable pub create : CustomerKey → Buffer → Buffer
create key out =
    assign_as_bigendian 4 key.c_id 4
      (assign_as_bigendian 1 key.d_id 3 (assign (assign_as_bigendian 2 key.w_id 0 out) 2 0))

unfoldable pub parse : Buffer → CustomerKey
parse buf = record {
  w_id = parse_bigendian 2 0 buf;
  d_id = parse_bigendian 1 3 buf;
  c_id = parse_bigendian 4 4 buf;
}

-- Of `NewOrder`, and of `Order`.
unfoldable pub order_key : (w_id d_id o_id : ℕ) → Buffer → Buffer
order_key w_id d_id o_id out =
    assign_as_bigendian 4 o_id 4
      (assign_as_bigendian 1 d_id 3 (assign (assign_as_bigendian 2 w_id 0 out) 2 0))

unfoldable pub order_line_key : (w_id d_id o_id ol_num : ℕ) → Buffer → Buffer
order_line_key w_id d_id o_id ol_num out =
    assign_as_bigendian 1 ol_num 7 (
      assign_as_bigendian 4 o_id 3
        (assign_as_bigendian 1 d_id 2 (assign_as_bigendian 2 w_id 0 out)))

unfoldable pub item_key : (i_id : ℕ) → Buffer → Buffer
item_key i_id out = assign_as_bigendian 4 i_id 4 (store (zeros 4) 0 out)

unfoldable pub stock_key : (w_id i_id : ℕ) → Buffer → Buffer
stock_key w_id i_id out =
    assign_as_bigendian 4 i_id 4 (assign_as_bigendian 2 w_id 2 (store (zeros 2) 0 out))
