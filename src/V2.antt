-- ===== src/V2.antt =====
-- The v2 driver, src/driver/v2.
pub mod Kernel
pub mod Bimap
pub mod Slot
pub mod Storage
pub mod Context
pub mod Device
pub mod Disk
pub mod Main
pub mod Debug
pub mod Tests
