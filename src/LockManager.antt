-- ===== src/LockManager.antt =====
-- lock-manager/ss2pl.cc: two-phase locking where a transaction registers all its accesses in the wait
-- lists of the tuples before it runs.
pub mod Types
pub mod Operations
pub mod Register
pub mod Acquire
pub mod Waitlist
pub mod Release
pub mod Order
pub mod Alone
mod Tests
