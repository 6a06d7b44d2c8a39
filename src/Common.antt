-- ===== src/Common.antt =====
-- The package `vendors/common`: what the vendor adapters share.
pub mod Sanitize
pub mod Ansi
pub mod Annotations
pub mod Snmp
