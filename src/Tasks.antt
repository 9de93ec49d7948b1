-- ===== src/Tasks.antt =====
-- The task list and the task board of frontend/src/features/tasks and pages/Tasks.
pub mod Clock
pub mod List
pub mod Search
pub mod Drag
pub mod Board
pub mod Page
pub mod Service
pub mod Drawer
pub mod Layout
