-- ===== src/Procedure/Tests.antt =====
-- The order of include/procedure.hh at concrete procedures.
use ccbench.Common.{◌≡◌, true}
use ccbench.Procedure.{Procedure, write, less}
use ccbench.Procedure.Order.{less_both_ways}

abbrev write_3 : Procedure
write_3 = record { ope = write; key = 3 }

less_both_ways_example :
    ((less write_3 write_3 ≡ true) × (less write_3 write_3 ≡ true)
      → (write_3.key ≡ write_3.key) × (write_3.ope ≡ write) × (write_3.ope ≡ write))
    × ((write_3.key ≡ write_3.key) × (write_3.ope ≡ write) × (write_3.ope ≡ write)
        → (less write_3 write_3 ≡ true) × (less write_3 write_3 ≡ true))
less_both_ways_example = less_both_ways write_3 write_3
