-- ===== src/Costing.antt =====
-- The costs of deals and the collaborators that cause them (frontend/src/features/costing/ and
-- frontend/src/pages/Costing/).
pub mod Collaborators
pub mod DealCosts
