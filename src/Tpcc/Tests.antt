-- ===== src/Tpcc/Tests.antt =====
-- The theorems about tpcc_silo/ at concrete keys.
use ccbench.Common.{ℕ, ◌+◌, ◌*◌, ◌-◌, ◌^◌, ◌<◌, ◌≡◌, refl, List, [], ◌∷◌, Option, none, some, arith}
use mathlib.Core.Option
use ccbench.Tpcc.Memory.{Buffer, store, load, byteswap, assign_as_bigendian}
use ccbench.Tpcc.Keys.{
  warehouse_key, district_key, create, parse, order_key, order_line_key, item_key, stock_key,
}
use ccbench.Tpcc.Order.{below, same, above, compare}
use ccbench.Tpcc.Fields.{customer_key_parse}
use ccbench.Tpcc.Tables.{Ids, customer, key_order}
use ccbench.Tpcc.Permutation.{
  minus, random_int, swap, shuffle, rounds, size, permutation, IsPermutation,
  permutation-IsPermutation,
}
use ccbench.Tpcc.Names
use ccbench.Tpcc.Names.{CLastKey, copy_cstr, copy_from}
use ccbench.Tpcc.Copying.{last_name_key_parse}

-- What the memory held.
abbrev stale : Buffer
stale k = k + 200

abbrev fresh : Buffer
fresh k = 0

abbrev ids_1 : Ids
ids_1 = record { w_id = 258; d_id = 7; c_id = 70000; o_id = 255; ol_num = 3; i_id = 9 }

-- In bytes, its order would be before that of `ids_1` if the least significant came first.
abbrev ids_2 : Ids
ids_2 = record { w_id = 258; d_id = 7; c_id = 69999; o_id = 256; ol_num = 1; i_id = 10 }

order_line_bytes : load 8 0 (order_line_key 258 7 256 1 stale) ≡ 1 ∷ 2 ∷ 7 ∷ 0 ∷ 0 ∷ 1 ∷ 0 ∷ 1 ∷ []
unfolding order_line_key assign_as_bigendian byteswap
order_line_bytes = refl

customer_key_parse_example : parse (create (customer ids_1) stale) ≡ customer ids_1
customer_key_parse_example =
    customer_key_parse (customer ids_1) stale (omega arith, omega arith, omega arith)

key_order_example :
    (compare (warehouse_key 258 stale) (warehouse_key 258 fresh) ≡ same)
    × (compare (district_key 258 7 stale) (district_key 258 7 fresh) ≡ same)
    × (compare (create (customer ids_1) stale) (create (customer ids_2) fresh) ≡ above)
    × (compare (order_key 258 7 255 stale) (order_key 258 7 256 fresh) ≡ below)
    × (compare (order_line_key 258 7 255 3 stale) (order_line_key 258 7 256 1 fresh) ≡ below)
    × (compare (item_key 9 stale) (item_key 10 fresh) ≡ below)
    × (compare (stock_key 258 9 stale) (stock_key 258 10 fresh) ≡ below)
key_order_example =
    key_order ids_1 ids_2 stale fresh
      (record {
        w_id = omega arith;
        d_id = omega arith;
        c_id = omega arith;
        o_id = omega arith;
        ol_num = omega arith;
        i_id = omega arith;
      })
      (record {
        w_id = omega arith;
        d_id = omega arith;
        c_id = omega arith;
        o_id = omega arith;
        ol_num = omega arith;
        i_id = omega arith;
      })

abbrev numbers : ℕ → ℕ
numbers i = 7 * i + 11

-- The numbers at the indices below 5.
abbrev first_five : Option (ℕ → ℕ) → Option (List ℕ)
first_five = Option.map (λ perm. load 5 0 perm)

permutation_of_5 : first_five (permutation numbers 1 5) ≡ some (2 ∷ 4 ∷ 1 ∷ 3 ∷ 5 ∷ [])
unfolding permutation size minus rounds shuffle random_int swap
permutation_of_5 = refl

-- The range of all 64-bit numbers fails an assert, and so does a range of one number.
permutation_of_all : first_five (permutation numbers 0 (2 ^ 64 - 1)) ≡ none
unfolding permutation size minus rounds shuffle random_int swap
permutation_of_all = refl

permutation_of_1 : first_five (permutation numbers 4 4) ≡ none
unfolding permutation
permutation_of_1 = refl

permutation-IsPermutation_example :
    (perm : ℕ → ℕ) × (permutation numbers 1 5 ≡ some perm)
    × (size 1 5 ≡ 5)
    × IsPermutation 1 (size 1 5) perm
permutation-IsPermutation_example =
    permutation-IsPermutation numbers 1 5 (omega arith) (omega arith) (omega arith)

-- "BAR", and what the memory held after it.
abbrev bar : Buffer
bar = store (66 ∷ 65 ∷ 82 ∷ 0 ∷ []) 0 stale

abbrev bar_key : CLastKey
bar_key = record { c_w_id = 258; c_d_id = 7; c_last = bar }

bar_bytes : load 7 0 (Names.create bar_key stale).out ≡ 1 ∷ 2 ∷ 7 ∷ 66 ∷ 65 ∷ 82 ∷ 0 ∷ []
unfolding Names.create copy_cstr copy_from assign_as_bigendian byteswap
bar_bytes = refl

last_name_key_parse_example :
    ((Names.create bar_key stale).len ≡ 6)
    × ((Names.parse (Names.create bar_key stale).out fresh).len ≡ 6)
    × ((Names.parse (Names.create bar_key stale).out fresh).c_w_id ≡ 258)
    × ((Names.parse (Names.create bar_key stale).out fresh).c_d_id ≡ 7)
    × ((i : ℕ) → i < 3 → (Names.parse (Names.create bar_key stale).out fresh).c_last_out i ≡ bar i)
    × ((Names.parse (Names.create bar_key stale).out fresh).c_last_out 3 ≡ 0)
last_name_key_parse_example =
    last_name_key_parse 3 bar_key stale (record { chars = λ i lt. ground (arith, lt); ends = refl })
      (omega arith) fresh (omega arith) (omega arith)
