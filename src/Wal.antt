-- ===== src/Wal.antt =====
-- core/src/wal: the records of the write-ahead log and the index that replays them.
pub mod Record
pub mod Tail
pub mod Checkpoint
pub mod Segment
pub mod Recover
