-- ===== src/Store.antt =====
-- src/store: the firmware store.
pub mod Names
pub mod State
pub mod Disk
pub mod Index
pub mod Blobs
pub mod Download
pub mod Sweep
pub mod Validate
pub mod VersionDir
pub mod Catalog
pub mod Reads
pub mod Registry
