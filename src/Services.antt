-- ===== src/Services.antt =====
-- The services that customers subscribe to: the pages and the drawers of
-- frontend/src/pages/Services/, and the queries of frontend/src/features/subscriptions/.
pub mod Billing
pub mod Page
pub mod Subscription
