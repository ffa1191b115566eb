-- ===== src/Procedure.antt =====
-- include/procedure.hh: the operations that a worker draws for a transaction. A payload, a
-- `char[VAL_SIZE]`, is the list of its bytes.
pub mod Order
pub mod Tests
use ccbench.Common.{ℕ, List, Bool, true, false, ◌==◌, ltb, if◌then◌else◌, ◌&&◌}

abbrev pub Payload : Type 0
Payload = List ℕ

pub data Ope : Type 0 where
  read write read_modify_write : Ope

-- `ronly_` and `wonly_` are left out: no operation of the modelled protocols reads them.
pub record Procedure : Type 0 where
  pub ope : Ope
  pub key : ℕ

abbrev is_write : Ope → Bool
is_write write = true
is_write _ = false

abbrev is_read : Ope → Bool
is_read read = true
is_read _ = false

-- `operator<`, which `std::sort` is called with.
unfoldable pub less : Procedure → Procedure → Bool
less a b =
    if (a.key == b.key) && is_write a.ope && is_read b.ope
    then true
    else if (a.key == b.key) && is_write a.ope && is_write b.ope
    then true
    else ltb a.key b.key
