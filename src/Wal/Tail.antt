-- ===== src/Wal/Tail.antt =====
-- core/src/wal/tail.rs and tail_validate.rs: the index of the records since the last checkpoint.
-- A table is a `TailTable`, an operation takes the index and returns the next one or an error,
-- and every error of the source comes before the first change, so that an error keeps the index.
pub mod State
pub mod Validate
pub mod Apply
pub mod Invariant
pub mod Rows
pub mod Push
pub mod Tables
pub mod Bodies
pub mod Step
pub mod Read
