-- ===== src/Session.antt =====
-- Signing in: the session store and the requests that refresh it (frontend/src/features/auth/ and
-- frontend/src/services/api.ts).
pub mod Store
pub mod Api
pub mod Refresh
pub mod Auth
pub mod Routes
pub mod Invite
pub mod Reset
