-- ===== src/Kitchen.antt =====
-- services/kitchen-service: kitchens, stations and the tasks on their displays.
pub mod Models
pub mod Client
pub mod Repositories
pub mod Session
pub mod Rules
pub mod Kds
pub mod Stations
pub mod System
pub mod Routes
pub mod Listing
pub mod Samples
mod Tests
