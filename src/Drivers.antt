-- ===== src/Drivers.antt =====
-- drivers/: what carries commands to a device.
pub mod Mock
pub mod Cli
