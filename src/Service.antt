-- ===== src/Service.antt =====
-- The service: src/service/src.
pub mod Mkswap
pub mod Swap
pub mod Monitor
pub mod Config
pub mod Pressure
pub mod Start
pub mod Signals
pub mod Process
mod Tests
