-- ===== src/Codec.antt =====
-- core/src/codec: the encodings of the columns of a section.
pub mod Nvr
pub mod Diff2
pub mod Stream
pub mod Bitmap
pub mod Presence
pub mod Fixed
pub mod Timestamp
pub mod Selector
