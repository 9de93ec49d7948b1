-- ===== src/Deals.antt =====
-- The deals board of frontend/src/features/deals: its URL parameters, drag sources, cache of the
-- list, forecasts, and the handlers of its controller.
pub mod Search
pub mod Drag
pub mod Forecast
pub mod Lane
pub mod Move
pub mod Board
pub mod Filters
pub mod Drawer
