-- ===== src/Timestamps.antt =====
-- Systems of workers whose transactions are serialised in the order of timestamps: what their protocols
-- have in common, and the invariant that relates every interleaving to a serial history.
pub mod History
pub mod Protocol
pub mod Invariant
pub mod Advance
pub mod Calm
pub mod Commits
pub mod Stores
