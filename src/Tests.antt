-- ===== src/Tests.antt =====
-- The theorems at concrete inputs, and runs of the models.
mod Types
mod Common
mod Model
mod Vsol
mod Managers
mod Mock
mod Cli
mod Factory
mod Wifi
mod Provisioning
