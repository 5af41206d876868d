-- ===== src/Settings.antt =====
-- src/settings_api/settings: one person's settings, from a request to the rows.
pub mod Store
pub mod Rows
pub mod SqlStore
pub mod Service
pub mod Sweeper
