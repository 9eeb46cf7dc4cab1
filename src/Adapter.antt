-- ===== src/Adapter.antt =====
-- The Blink adapter of src/blink_dashboard/blink_adapter.py.
pub mod Clients
pub mod Cameras
pub mod Login
pub mod Operations
