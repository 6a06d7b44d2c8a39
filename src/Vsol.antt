-- ===== src/Vsol.antt =====
-- The package `vendors/vsol`: the adapter of V-SOL OLTs.
pub mod Session
pub mod ProfileText
pub mod NextId
pub mod DbaProfile
pub mod Bandwidth
pub mod TrafficProfile
pub mod LineProfile
pub mod SnmpIndex
pub mod OnuProfile
pub mod Wifi
pub mod Provisioning
