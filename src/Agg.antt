-- ===== src/Agg.antt =====
-- core/src/agg: the aggregation of a column into buckets of time.
pub mod Bucket
pub mod Fold
