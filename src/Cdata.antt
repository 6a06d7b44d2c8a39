-- ===== src/Cdata.antt =====
-- vendors/cdata/: the adapter of C-Data devices.
pub mod ErrorPatterns
pub mod Errors
