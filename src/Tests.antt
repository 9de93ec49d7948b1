-- ===== src/Tests.antt =====
-- The theorems at concrete inputs.
mod Data
mod Deals
mod Tasks
mod Lists
mod Session
mod Updates
mod Services
mod Settings
mod Forms
