-- ===== src/Lib.antt =====
-- LiteSDB, an embedded database of time series.
--
-- A table holds rows of observations in the order of a clock; an observation gives values to some
-- of the streams (a series and a field) of the table. Rows are written to a log (core/src/wal),
-- whose records since the last checkpoint are kept in memory in a tail index. Sealing encodes the
-- columns of the index into unit files with the codecs of core/src/codec, and publishes a
-- manifest (core/src/manifest) that names the live units, the tables and the place in the log
-- from which records are replayed; a query folds columns into buckets of time (core/src/agg). All
-- of them share the values, schemas and observations of core/src/types, the errors of
-- core/src/error.rs and the limits of core/src/limits.rs.
--
-- Which file models which part:
--   Base                 numbers of fixed width, integers, bytes and bits, lists, BTreeMap, and
--                        Result with the errors of core/src/error.rs
--   Limits               core/src/limits.rs
--   Types/Value, Sq1     core/src/types/mod.rs, value.rs and sq1.rs
--   Types/Schema         core/src/types/schema.rs: VersionSpec and TableVersion
--   Types/Observation    core/src/types/observation.rs
--   Codec/Nvr            core/src/codec/nvr.rs (Token: NvrState; Encode: NvrMeasurer, NvrEncoder,
--                        write_token) and nvr_decode.rs (Decode)
--   Codec/Diff2          core/src/codec/diff2.rs: Diff2Encoder and Diff2Decoder; the state of
--                        XorEncoder and of XorDecoder is the option that they hold
--   Codec/Stream         the loops that core/src/codec/timestamp.rs and selector.rs share, over a
--                        predictor
--   Codec/Timestamp      core/src/codec/timestamp.rs
--   Codec/Bitmap         the bitmaps of core/src/codec/presence.rs, fixed.rs and fixed_decode.rs
--   Codec/Presence       core/src/codec/presence.rs
--   Codec/Fixed          core/src/codec/fixed.rs and fixed_decode.rs (Decode)
--   Codec/Selector       core/src/codec/selector.rs
--   Wal/Record           core/src/wal/record.rs (Encode; the bodies stand in Record itself) and
--                        record_decode.rs (Decode)
--   Wal/Tail             core/src/wal/tail.rs (State: the types, restore_tail; Apply: apply_inner)
--                        and tail_validate.rs (Validate)
--   Wal/Segment          core/src/wal/segment.rs
--   Wal/Recover          core/src/wal/recover_scan.rs: replay_segment
--   Wal/Checkpoint       core/src/wal/checkpoint.rs and position.rs
--   Manifest/Catalog     core/src/manifest/catalog.rs, and Manifest/Versions catalog_validate.rs
--   Manifest/Transition  core/src/manifest/transition.rs
--   Manifest/Reopen      a manifest with core/src/wal/recover_scan.rs
--   Manifest/Format      core/src/manifest/format.rs (Encode) and format_decode.rs (Decode)
--   Agg/Bucket           core/src/agg/bucket.rs: BucketBuilder
--   Agg/Fold             core/src/agg/fold.rs: geometry, measure_buckets, observe_fact and
--                        finish_state
--   Examples             runs at concrete inputs
--
-- A method that changes its object takes the state and returns the next one in a Result. A Rust
-- integer is a number (or an integer, where it is signed) with its range written where it
-- matters: the checked operations give none outside it. A Vec is a list, a BTreeMap a sorted list
-- of pairs. `usize` has 64 bits. A loop over a slice is recursion on the list; the loops over the
-- bits of a payload recur on the proof that division by 128 makes a number smaller, so that they have no
-- fuel; the scan of a segment has one more round as fuel than bytes, and each round takes a byte.
--
-- The sizes in memory of TailRow and ObservationEntry are chosen by the compiler, and are
-- parameters of the tail index. The checksum of crc32fast is a parameter of the bytes of records
-- and manifests, of which only its range is used. A cursor of a decoder is the list of the bytes
-- that are left. The layout of a slice that is written beyond its end is kept as the rest of the
-- slice.
--
-- Not modelled: the files of the log and of the manifest, with their names, unit files, the request
-- of a query and its cursor, retention, the shared log, archives, the facade with its locks and
-- threads, telemetry and the command line.
pub mod Base
pub mod Limits
pub mod Types
pub mod Codec
pub mod Wal
pub mod Agg
pub mod Manifest
mod Examples
