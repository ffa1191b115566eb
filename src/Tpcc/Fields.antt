-- ===== src/Tpcc/Fields.antt =====
-- tpcc_silo/tpcc/tpcc_tables.hpp: `Customer::Key::parse` finds the fields again.
use ccbench.Common.{◌≡◌, refl, ◌∙◌, arith}
use ccbench.Tpcc.Memory.{
  Buffer, assign_as_bigendian-reverse, parse_bigendian, parse_bigendian-reverse,
}
use ccbench.Tpcc.Keys.{CustomerKey, create, parse}
use ccbench.Tpcc.Numbers.{Fits}
use ccbench.Tpcc.Bytes.{create-AreBytes}

-- What is parsed of a customer key, in terms of its bytes.
module _ (key : CustomerKey) (out : Buffer) (fits : Fits key) where
  parsed-w_id : parse_bigendian 2 0 (create key out) ≡ key.w_id
  unfolding create
  parsed-w_id =
      parse_bigendian-reverse 2 0 (create key out)
        (let h = create-AreBytes key out in (h.0, (h.1.0, tt)))
      ∙ rw
          (
            assign_as_bigendian-reverse 2 key.w_id,
            assign_as_bigendian-reverse 1 key.d_id,
            assign_as_bigendian-reverse 4 key.c_id,
          )
          (omega (arith, fits))

  parsed-d_id : parse_bigendian 1 3 (create key out) ≡ key.d_id
  unfolding create
  parsed-d_id =
      parse_bigendian-reverse 1 3 (create key out)
        (let h = create-AreBytes key out in (h.1.1.1.0, tt))
      ∙ rw
          (
            assign_as_bigendian-reverse 2 key.w_id,
            assign_as_bigendian-reverse 1 key.d_id,
            assign_as_bigendian-reverse 4 key.c_id,
          )
          (omega (arith, fits))

  parsed-c_id : parse_bigendian 4 4 (create key out) ≡ key.c_id
  unfolding create
  parsed-c_id =
      parse_bigendian-reverse 4 4 (create key out) (let h = create-AreBytes key out in h.1.1.1.1)
      ∙ rw
          (
            assign_as_bigendian-reverse 2 key.w_id,
            assign_as_bigendian-reverse 1 key.d_id,
            assign_as_bigendian-reverse 4 key.c_id,
          )
          (omega (arith, fits))

-- A customer key whose fields fit is parsed back to the same fields, whatever memory it was written to.
pub customer_key_parse :
    (key : CustomerKey) (out : Buffer) → Fits key → parse (create key out) ≡ key
unfolding parse
customer_key_parse key out fits =
    rw (parsed-w_id key out fits, parsed-d_id key out fits, parsed-c_id key out fits) refl
