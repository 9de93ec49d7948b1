-- ===== src/GlobalSearch.antt =====
-- The search over all records (frontend/src/features/global-search/).
pub mod State
pub mod Presentation
pub mod Keyboard
pub mod Navigation
