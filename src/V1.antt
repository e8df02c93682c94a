-- ===== src/V1.antt =====
-- The first driver: src/driver/src.
pub mod Dynamap
pub mod Driver
pub mod Cleanup
pub mod Setup
pub mod Module
pub mod Threads
mod Tests
