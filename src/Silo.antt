-- ===== src/Silo.antt =====
-- silo/: optimistic concurrency control with epochs, TID words and locks on the write set.
pub mod Tidword
pub mod Operations
pub mod Unlocking
pub mod Validation
pub mod Workers
pub mod System
pub mod Holding
pub mod World
pub mod Growing
pub mod Invariant
pub mod Reading
pub mod Locking
pub mod Storing
pub mod Fencing
pub mod Checking
pub mod Deciding
pub mod Steps
pub mod Room
pub mod Safety
pub mod Epochs
pub mod Tests
pub mod Runs
