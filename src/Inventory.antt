-- ===== src/Inventory.antt =====
-- services/rmc-inventory/core
pub mod Types
pub mod Sources
pub mod Manager
pub mod Issues
