-- ===== src/Drivers/Cli.antt =====
-- drivers/cli/: the driver that carries commands to a device over SSH.
pub mod Prompt
pub mod Session
pub mod Driver
pub mod Subscribers
pub mod Paging
pub mod Screens
pub mod Executing
pub mod Stopping
pub mod Connection
