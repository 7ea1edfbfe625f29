-- ===== src/Tasks.antt =====
-- mindin/tasks.py: a coding agent's work on task notes.
pub mod Claims
