-- ===== src/V2/Tests.antt =====
-- Runs of the v2 driver, src/driver/v2, on a small kernel, and its theorems at concrete inputs.
pub mod Sim
mod Maps
mod Slots
mod Sectors
mod Devices
mod Lifetimes
mod Disks
mod Exits
mod Calls
