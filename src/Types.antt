-- ===== src/Types.antt =====
-- The package `types`: profiles and their validation.
pub mod Check
pub mod VlanList
pub mod LineProfile
pub mod OnuProfile
pub mod Equipment
pub mod Wifi
pub mod DriverV2
