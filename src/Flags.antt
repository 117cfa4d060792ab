-- ===== src/Flags.antt =====
-- The feature-flag service: internal/flags, with its read projection (internal/snapshot), its
-- authorities (internal/store/memory, internal/store/sqlite) and its HTTP API (internal/api).
pub mod Flag
pub mod Evaluate
pub mod Snapshot
pub mod Authority
pub mod Memory
pub mod Sqlite
pub mod Service
pub mod Api
mod Tests
