-- ===== src/Core.antt =====
-- src/core: the value types, exact arithmetic and policy layer.
pub mod CheckedArith
pub mod ExactInt
pub mod Ticks
pub mod Accum
pub mod Registry
pub mod Glob
pub mod Tolerance
pub mod Model
pub mod Profiles
pub mod Policy
