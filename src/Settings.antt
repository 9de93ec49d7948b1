-- ===== src/Settings.antt =====
-- The settings of a workspace and its people (frontend/src/pages/Settings/SettingsPage.tsx,
-- frontend/src/pages/Members/MembersPage.tsx and frontend/src/features/organizations/components).
pub mod Accounts
pub mod Sections
pub mod Fields
pub mod Members
pub mod Queries
