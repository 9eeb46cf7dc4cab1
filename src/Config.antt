-- ===== src/Config.antt =====
-- src/blink_dashboard/config.py
pub mod Types
pub mod Toml
pub mod Merge
pub mod Build
pub mod Defaults
pub mod Sections
