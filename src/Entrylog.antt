-- ===== src/Entrylog.antt =====
-- src/entrylog.c: the replicated-command log.
pub mod Record
pub mod State
pub mod Append
pub mod Invariant
pub mod Read
pub mod Compact
pub mod Open
pub mod Verified
pub mod Session
