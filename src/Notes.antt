-- ===== src/Notes.antt =====
-- mindin/notes.py, the part that writes notes.
pub mod Key
pub mod Vault
pub mod Rewrite
pub mod Stamps
pub mod FreeKey
pub mod Operations
pub mod Close
pub mod Slug
pub mod Backlog
pub mod Listed
