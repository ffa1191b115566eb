-- ===== src/Tpcc/Tables.antt =====
-- tpcc_silo/tpcc/tpcc_tables.hpp: the order of the keys in the index, table by table.
use ccbench.Common.{ℕ, ◌^◌, ◌<◌, ◌≡◌, refl, ◌∙◌, arith}
use ccbench.Tpcc.Memory.{Buffer}
use ccbench.Tpcc.Keys.{
  warehouse_key, district_key, CustomerKey, create, order_key, order_line_key, item_key, stock_key,
}
use ccbench.Tpcc.Numbers.{
  Fits, create-number, warehouse_key-number, item_key-number, order_key-number,
  order_line_key-number, stock_key-number, district_key-number,
}
use ccbench.Tpcc.Order.{sign_of, or_else, compare, compare-sign_of}
use ccbench.Tpcc.Bytes.{
  create-AreBytes, order_line_key-AreBytes, warehouse_key-AreBytes, district_key-AreBytes,
  order_key-AreBytes, item_key-AreBytes, stock_key-AreBytes,
}

module _ (m n : Buffer) where
  warehouse_key_order :
      (w w' : ℕ)
      → w < 2 ^ 16
      → w' < 2 ^ 16
      → compare (warehouse_key w m) (warehouse_key w' n) ≡ sign_of w w'
  warehouse_key_order w w' h h' =
      compare-sign_of (warehouse_key w m) (warehouse_key w' n) (warehouse_key-AreBytes w m)
        (warehouse_key-AreBytes w' n)
      ∙ rw (warehouse_key-number w m h, warehouse_key-number w' n h') refl

  district_key_order :
      (w d w' d' : ℕ)
      → (w < 2 ^ 16) × (d < 2 ^ 8)
      → (w' < 2 ^ 16) × (d' < 2 ^ 8)
      → compare (district_key w d m) (district_key w' d' n) ≡ or_else (sign_of w w') (sign_of d d')
  district_key_order w d w' d' (hw, hd) (hw', hd') =
      compare-sign_of (district_key w d m) (district_key w' d' n) (district_key-AreBytes w d m)
        (district_key-AreBytes w' d' n)
      ∙ rw (district_key-number w m hw d hd, district_key-number w' n hw' d' hd') (ground arith)

  customer_key_order :
      (a b : CustomerKey)
      → Fits a
      → Fits b
      → compare (create a m) (create b n)
        ≡ or_else (sign_of a.w_id b.w_id) (or_else (sign_of a.d_id b.d_id) (sign_of a.c_id b.c_id))
  customer_key_order a b ha hb =
      compare-sign_of (create a m) (create b n) (create-AreBytes a m) (create-AreBytes b n)
      ∙ rw (create-number a m ha, create-number b n hb) (ground (arith, ha, hb))

  order_key_order :
      (w d o w' d' o' : ℕ)
      → (w < 2 ^ 16) × (d < 2 ^ 8) × (o < 2 ^ 32)
      → (w' < 2 ^ 16) × (d' < 2 ^ 8) × (o' < 2 ^ 32)
      → compare (order_key w d o m) (order_key w' d' o' n)
        ≡ or_else (sign_of w w') (or_else (sign_of d d') (sign_of o o'))
  order_key_order w d o w' d' o' (hw, hd, ho) (hw', hd', ho') =
      compare-sign_of (order_key w d o m) (order_key w' d' o' n) (order_key-AreBytes w d o m)
        (order_key-AreBytes w' d' o' n)
      ∙ rw (order_key-number w m hw d o hd ho, order_key-number w' n hw' d' o' hd' ho')
          (ground arith)

  order_line_key_order :
      (w d o l w' d' o' l' : ℕ)
      → (w < 2 ^ 16) × (d < 2 ^ 8) × (o < 2 ^ 32) × (l < 2 ^ 8)
      → (w' < 2 ^ 16) × (d' < 2 ^ 8) × (o' < 2 ^ 32) × (l' < 2 ^ 8)
      → compare (order_line_key w d o l m) (order_line_key w' d' o' l' n)
        ≡ or_else (sign_of w w') (or_else (sign_of d d') (or_else (sign_of o o') (sign_of l l')))
  order_line_key_order w d o l w' d' o' l' (hw, hd, ho, hl) (hw', hd', ho', hl') =
      compare-sign_of (order_line_key w d o l m) (order_line_key w' d' o' l' n)
        (order_line_key-AreBytes w d o l m) (order_line_key-AreBytes w' d' o' l' n)
      ∙ rw
          (
            order_line_key-number w m hw d o l hd ho hl,
            order_line_key-number w' n hw' d' o' l' hd' ho' hl',
          )
          (ground arith)

  item_key_order :
      (i i' : ℕ) → i < 2 ^ 32 → i' < 2 ^ 32 → compare (item_key i m) (item_key i' n) ≡ sign_of i i'
  item_key_order i i' h h' =
      compare-sign_of (item_key i m) (item_key i' n) (item_key-AreBytes i m)
        (item_key-AreBytes i' n)
      ∙ rw (item_key-number i m h, item_key-number i' n h') refl

  stock_key_order :
      (w i w' i' : ℕ)
      → (w < 2 ^ 16) × (i < 2 ^ 32)
      → (w' < 2 ^ 16) × (i' < 2 ^ 32)
      → compare (stock_key w i m) (stock_key w' i' n) ≡ or_else (sign_of w w') (sign_of i i')
  stock_key_order w i w' i' (hw, hi) (hw', hi') =
      compare-sign_of (stock_key w i m) (stock_key w' i' n) (stock_key-AreBytes w i m)
        (stock_key-AreBytes w' i' n)
      ∙ rw (stock_key-number w m hw i hi, stock_key-number w' n hw' i' hi') (ground arith)

-- The ids that a row or a key can have.
pub record Ids : Type 0 where
  pub w_id : ℕ
  pub d_id : ℕ
  pub c_id : ℕ
  pub o_id : ℕ
  pub ol_num : ℕ
  pub i_id : ℕ

-- They fit the types of the fields.
pub record IsInRange (a : Ids) : Type 0 where
  pub w_id : a.w_id < 2 ^ 16
  pub d_id : a.d_id < 2 ^ 8
  pub c_id : a.c_id < 2 ^ 32
  pub o_id : a.o_id < 2 ^ 32
  pub ol_num : a.ol_num < 2 ^ 8
  pub i_id : a.i_id < 2 ^ 32

abbrev pub customer : Ids → CustomerKey
customer a = record { w_id = a.w_id; d_id = a.d_id; c_id = a.c_id }

-- Two keys of one table whose ids fit their fields compare as the ids do, the first that differ deciding:
-- in warehouses by the warehouse, in districts then by the district, in customers, orders and new orders
-- then by the customer or the order, in order lines then by the number of the line, in items by the item,
-- and in stocks by the warehouse and then the item. What the memory held before does not matter.
pub key_order :
    (a b : Ids) (m n : Buffer)
    → IsInRange a
    → IsInRange b
    → (compare (warehouse_key a.w_id m) (warehouse_key b.w_id n) ≡ sign_of a.w_id b.w_id)
      × (compare (district_key a.w_id a.d_id m) (district_key b.w_id b.d_id n)
          ≡ or_else (sign_of a.w_id b.w_id) (sign_of a.d_id b.d_id))
      × (compare (create (customer a) m) (create (customer b) n)
          ≡ or_else
              (sign_of a.w_id b.w_id)
              (or_else (sign_of a.d_id b.d_id) (sign_of a.c_id b.c_id)))
      × (compare (order_key a.w_id a.d_id a.o_id m) (order_key b.w_id b.d_id b.o_id n)
          ≡ or_else
              (sign_of a.w_id b.w_id)
              (or_else (sign_of a.d_id b.d_id) (sign_of a.o_id b.o_id)))
      × (compare
            (order_line_key a.w_id a.d_id a.o_id a.ol_num m)
            (order_line_key b.w_id b.d_id b.o_id b.ol_num n)
          ≡ or_else (sign_of a.w_id b.w_id) (
              or_else
                (sign_of a.d_id b.d_id)
                (or_else (sign_of a.o_id b.o_id) (sign_of a.ol_num b.ol_num))))
      × (compare (item_key a.i_id m) (item_key b.i_id n) ≡ sign_of a.i_id b.i_id)
      × (compare (stock_key a.w_id a.i_id m) (stock_key b.w_id b.i_id n)
          ≡ or_else (sign_of a.w_id b.w_id) (sign_of a.i_id b.i_id))
key_order a b m n h h' = (
  warehouse_key_order m n a.w_id b.w_id h.w_id h'.w_id,
  district_key_order m n a.w_id a.d_id b.w_id b.d_id (h.w_id, h.d_id) (h'.w_id, h'.d_id),
  customer_key_order m n (customer a) (customer b) (h.w_id, h.d_id, h.c_id)
      (h'.w_id, h'.d_id, h'.c_id),
  order_key_order m n a.w_id a.d_id a.o_id b.w_id b.d_id b.o_id (h.w_id, h.d_id, h.o_id)
      (h'.w_id, h'.d_id, h'.o_id),
  order_line_key_order m n a.w_id a.d_id a.o_id a.ol_num b.w_id b.d_id b.o_id b.ol_num
      (h.w_id, h.d_id, h.o_id, h.ol_num) (h'.w_id, h'.d_id, h'.o_id, h'.ol_num),
  item_key_order m n a.i_id b.i_id h.i_id h'.i_id,
  stock_key_order m n a.w_id a.i_id b.w_id b.i_id (h.w_id, h.i_id) (h'.w_id, h'.i_id),
)
