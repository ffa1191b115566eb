-- ===== src/Si.antt =====
-- si/: snapshot isolation over versions, with the first-updater-wins rule.
pub mod Types
pub mod Workers
pub mod System
pub mod Invariant
pub mod Growing
pub mod Versions
pub mod Reading
pub mod Storing
pub mod Publishing
pub mod Keeping
pub mod Committing
pub mod Steps
pub mod Safety
pub mod Runs
