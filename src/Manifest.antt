-- ===== src/Manifest.antt =====
-- core/src/manifest: the catalog of the tables and units that a database is made of.
pub mod Versions
pub mod Catalog
pub mod Transition
pub mod Valid
pub mod Restore
pub mod Steps
pub mod Next
pub mod Tables
pub mod Recovery
pub mod Format
pub mod Reopen
