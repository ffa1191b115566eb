-- ===== src/Ss2pl.antt =====
-- ss2pl/: strong strict two-phase locking over the reader-writer locks of include/rwlock.hh.
pub mod Types
pub mod Operations
pub mod Effects
pub mod Executing
pub mod Workers
pub mod Loading
pub mod Progress
pub mod Serial
pub mod Refinement
pub mod Safety
pub mod Alone
pub mod Once
pub mod LockedOnce
pub mod Conflicts
mod Tests
