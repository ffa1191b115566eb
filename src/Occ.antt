-- ===== src/Occ.antt =====
-- occ/: optimistic concurrency control with serial validation, after Kung and Robinson.
pub mod Operations
pub mod Workers
pub mod History
pub mod Validation
pub mod Window
pub mod Invariant
pub mod Reading
pub mod Refinement
pub mod Publishing
pub mod Steps
pub mod Safety
pub mod Tests
