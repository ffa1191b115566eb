-- ===== src/Procedure/Order.antt =====
-- `operator<` of include/procedure.hh as an order for `std::sort`.
use ccbench.Common.{◌≡◌, true, arith}
use ccbench.Procedure.{Procedure, write, less}

-- `operator<` puts two procedures each before the other exactly when both write the same key: then it
-- is no strict weak order. In particular a procedure that writes is less than itself.
pub less_both_ways :
    (a b : Procedure)
    → ((less a b ≡ true) × (less b a ≡ true) → (a.key ≡ b.key) × (a.ope ≡ write) × (b.ope ≡ write))
      × ((a.key ≡ b.key) × (a.ope ≡ write) × (b.ope ≡ write)
          → (less a b ≡ true) × (less b a ≡ true))
unfolding less
less_both_ways a b = ground arith
