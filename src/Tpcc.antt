-- ===== src/Tpcc.antt =====
-- tpcc_silo/tpcc/: the keys of the TPC-C tables, and the helpers that fill the tables.
pub mod Memory
pub mod Keys
pub mod Order
pub mod Numbers
pub mod Bytes
pub mod Fields
pub mod Tables
pub mod History
pub mod Permutation
pub mod Names
pub mod Copying
pub mod Tests
