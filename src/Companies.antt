-- ===== src/Companies.antt =====
-- The list of companies (frontend/src/features/companies/).
pub mod Search
pub mod Listing
pub mod Queries
pub mod Paging
pub mod Drawer
