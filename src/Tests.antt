-- ===== src/Tests.antt =====
-- Runs at concrete inputs, and the theorems at inputs where their hypotheses hold.
mod Host
mod Checksums
mod Keys
mod Files
mod Logs
mod Readback
mod Words
mod Names
mod Trees
mod Maps
