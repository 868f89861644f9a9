-- ===== src/Scripts.antt =====
-- The scripts and their hot reload (scripts.go).
pub mod Names
pub mod Registry
pub mod Listing
pub mod Watch
pub mod Pool
pub mod Loader
pub mod Requires
pub mod Catalog
pub mod Refinement
pub mod Package
pub mod Open
pub mod Opened
