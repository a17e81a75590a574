-- ===== src/Probe.antt =====
-- The pure part of src/probe: the cadence of a packet scan.
pub mod Cadence
