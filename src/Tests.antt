-- ===== src/Tests.antt =====
-- Runs of the model on a small cache, and the theorems at inputs that meet their hypotheses.
pub mod Example
pub mod Witnesses
pub mod Traces
mod Media
mod Disks
mod Calls
mod Whole
