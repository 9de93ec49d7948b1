-- ===== src/Timeline.antt =====
-- The timeline of a company
-- (frontend/src/features/companies/components/CompanyTimelineFormatters.ts).
pub mod Event
pub mod Tables
pub mod Copy
pub mod Days
pub mod Relative
