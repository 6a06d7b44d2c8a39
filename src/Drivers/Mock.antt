-- ===== src/Drivers/Mock.antt =====
-- drivers/mock/driver.go: the driver that simulates a device.
pub mod State
pub mod Calls
pub mod Lifecycle
pub mod Matching
pub mod Reachable
pub mod Disconnected
pub mod Status
pub mod Outputs
