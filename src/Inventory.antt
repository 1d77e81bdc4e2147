-- ===== src/Inventory.antt =====
-- internal/features/inventory: stock levels, the repository's statements and the service, each in a
-- module below.
pub mod Levels
pub mod Laws
pub mod Counts
pub mod Repository
pub mod Rows
pub mod Batches
pub mod Conservation
pub mod Service
