-- ===== src/Tictoc.antt =====
-- tictoc/: optimistic concurrency control by timestamps that the data carry.
pub mod Types
pub mod Operations
pub mod Words
pub mod Workers
pub mod World
pub mod Invariant
pub mod Calm
pub mod Standing
pub mod Locking
pub mod Extending
pub mod Commits
pub mod Reading
pub mod Validation
pub mod Steps
pub mod Safety
pub mod Tests
