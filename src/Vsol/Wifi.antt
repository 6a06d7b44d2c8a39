-- ===== src/Vsol/Wifi.antt =====
-- vendors/vsol/wifi.go: the Wi-Fi of ONUs.
pub mod Outputs
pub mod Commands
pub mod Running
pub mod Applying
pub mod Device
pub mod Readback
pub mod Profiles
pub mod Methods
pub mod Manager
pub mod Redaction
pub mod Remembered
pub mod Verified
