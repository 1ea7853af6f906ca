-- ===== src/Store.antt =====
-- src/store.rs
pub mod Schema
pub mod Columns
pub mod Cells
pub mod State
pub mod Meta
pub mod Staging
pub mod Rows
pub mod Clamp
pub mod Stage
pub mod Backed
pub mod Readback
pub mod Rebase
pub mod Overflow
pub mod Import
pub mod Imported
pub mod Writes
pub mod Keyed
pub mod Column
pub mod Listing
pub mod Listed
pub mod Vectors
pub mod Examples
pub mod Batches
