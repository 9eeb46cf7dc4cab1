-- ===== src/Dashboard.antt =====
-- The HTTP application of src/blink_dashboard/app.py: who may call it, what its handlers answer, and
-- what its status shows.
pub mod Web
pub mod Controls
pub mod Queries
pub mod Progress
pub mod Backend
