-- ===== src/Codec/Nvr.antt =====
-- core/src/codec/nvr.rs and nvr_decode.rs: symbols as literals, runs of zeros and runs of nulls,
-- each a token of 1 to 10 bytes. A slice that is written is the pair of the bytes before the
-- offset and of the room behind it; a slice that is read is what lies behind the offset.
pub mod Token
pub mod Encode
pub mod Decode
pub mod Bytes
pub mod Parse
pub mod Runs
pub mod Measure
pub mod Write
pub mod Scan
pub mod RoundTrip
