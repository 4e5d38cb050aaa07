-- ===== src/Fulfillment.antt =====
-- services/fulfillment-service: orders and the life of their kitchen tasks.
pub mod Domain
pub mod Models
pub mod Schemas
pub mod Repositories
pub mod Builder
pub mod Samples
mod Tests
pub mod Session
pub mod Responses
pub mod Transitions
pub mod Documents
pub mod Events
pub mod Clients
pub mod Orders
pub mod Reading
