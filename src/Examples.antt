-- ===== src/Examples.antt =====
-- Runs of the model at concrete inputs, and the theorems at concrete inputs.
mod Codec
mod Diff
mod Tail
mod Agg
mod Fold
mod Record
mod Recover
mod Manifest
mod ManifestFile
mod Reopen
mod Columns
