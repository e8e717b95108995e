-- ===== src/Manifest/Format.antt =====
-- core/src/manifest/format.rs and format_decode.rs: the bytes of a manifest.
pub mod Encode
pub mod Decode
pub mod Fields
pub mod Version
pub mod Table
pub mod Retired
pub mod Lengths
pub mod Measure
pub mod RoundTrip
pub mod File
