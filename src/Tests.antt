-- ===== src/Tests.antt =====
-- Runs of the code on concrete inputs.
pub mod Arith
pub mod Timelines
pub mod Cadences
pub mod Words
pub mod Policies
pub mod Runs
pub mod Reports
pub mod Verdicts
pub mod Compares
pub mod SpanRuns
