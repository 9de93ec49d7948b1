-- ===== src/Updates.antt =====
-- The update centre of an installation (frontend/src/features/updates/).
pub mod Confirmation
pub mod Center
