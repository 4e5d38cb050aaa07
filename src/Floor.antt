-- ===== src/Floor.antt =====
-- A turn of a worker of services/station-simulator-service at the KDS of services/kitchen-service, whose
-- claims and completions call services/fulfillment-service: the worker's requests are answered by the
-- kitchen's routes, and their calls by the fulfillment service. No answer is lost here.
pub mod Views
pub mod Turn
pub mod Orders
pub mod Finished
pub mod Counted
pub mod Calls
pub mod Served
pub mod Worked
pub mod Truthful
mod Tests
