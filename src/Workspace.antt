-- ===== src/Workspace.antt =====
-- A workspace's frame: its navigation.
pub mod Navigation
pub mod Pages
