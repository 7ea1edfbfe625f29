-- ===== src/Layout.antt =====
-- The part of mindin/schema.py that reads a schema file: `deep_merge`, the problems that it may have,
-- and what it is read into.
pub mod Merge
pub mod Fields
pub mod Problems
pub mod Contract
pub mod Loading
