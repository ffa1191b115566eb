-- ===== src/Tpcc/Names.antt =====
-- tpcc_silo/tpcc/: `copy_cstr` of tpcc_util.hpp, and `Customer::CLastKey` of tpcc_tables.hpp, the key of a
-- customer's last name.
use ccbench.Common.{ℕ, zero, suc, ◌+◌, ◌-◌, ◌==◌, if◌then◌else◌}
use ccbench.Common.Family.{assign}
use ccbench.Tpcc.Memory.{Buffer, assign_as_bigendian, parse_bigendian}

pub record Copied : Type 0 where
  pub out : Buffer
  pub len : ℕ

-- The loop, with `todo` characters of room left, into `out + at`.
unfoldable pub copy_from : (todo i at : ℕ) (input out : Buffer) → Copied
copy_from zero i at input out = record { out = assign out (at + i) 0; len = i }
copy_from (suc todo) i at input out =
    let rest = copy_from todo (suc i) at input (assign out (at + i) (input i)) in
    if input i == 0 then record { out = assign out (at + i) 0; len = i } else rest

-- `input` is `in`.
unfoldable pub copy_cstr : (at : ℕ) (input : Buffer) (out_buf_size : ℕ) (out : Buffer) → Copied
copy_cstr at input out_buf_size out =
    if out_buf_size == 0
    then record { out = out; len = 0 }
    else copy_from (out_buf_size - 1) 0 at input out

-- `c_last` is the memory that the pointer is to, and `c_last_out` is an argument of `parse`.
pub record CLastKey : Type 0 where
  pub c_w_id : ℕ
  pub c_d_id : ℕ
  pub c_last : Buffer

-- `sizeof(C_LAST)`
abbrev pub c_last_size : ℕ
c_last_size = 17

unfoldable pub create : CLastKey → Buffer → Copied
create key out =
    let copied =
      copy_cstr 3 key.c_last c_last_size
        (assign_as_bigendian 1 key.c_d_id 2 (assign_as_bigendian 2 key.c_w_id 0 out)) in
    record { out = copied.out; len = 2 + 1 + copied.len }

pub record Parsed : Type 0 where
  pub c_w_id : ℕ
  pub c_d_id : ℕ
  pub c_last_out : Buffer
  pub len : ℕ

unfoldable pub parse : (input c_last_out : Buffer) → Parsed
parse input c_last_out =
    let copied = copy_cstr 0 (λ i. input (3 + i)) c_last_size c_last_out in
    record {
      c_w_id = parse_bigendian 2 0 input;
      c_d_id = parse_bigendian 1 2 input;
      c_last_out = copied.out;
      len = 2 + 1 + copied.len;
    }
