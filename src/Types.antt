-- ===== src/Types.antt =====
-- core/src/types: the values, the schemas and the observations.
pub mod Value
pub mod Sq1
pub mod Schema
pub mod Observation
