-- ===== src/Entrylog/Invariant.antt =====
-- A log of src/entrylog.c is well formed, and every operation keeps it so.
pub mod Table
pub mod Commit
pub mod Push
pub mod Hard
pub mod Cut
