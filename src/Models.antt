-- ===== src/Models.antt =====
-- The shared data of internal/models: enumerations, times, contests and judging records.
pub mod Types
pub mod Time
pub mod Settings
pub mod Contest
pub mod Judging
