-- ===== src/Storage.antt =====
-- src/blink_dashboard/storage.py
pub mod Types
pub mod Timestamps
pub mod Runs
pub mod Phases
pub mod Records
