-- ===== src/Simulator.antt =====
-- services/station-simulator-service: virtual workers that claim and complete the tasks of a station.
pub mod Kds
pub mod Duration
pub mod Config
pub mod Worker
pub mod Selection
pub mod Retries
pub mod Counts
pub mod Turns
pub mod Samples
mod Tests
