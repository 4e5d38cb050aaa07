-- ===== src/Menu.antt =====
-- services/menu-service: the menu items, their recipes and their availability in the kitchens.
pub mod Models
pub mod Service
pub mod Constraints
pub mod Recipes
pub mod Availability
pub mod Listing
mod Tests
