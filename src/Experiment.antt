-- ===== src/Experiment.antt =====
-- src/blink_dashboard/experiment.py
pub mod State
pub mod World
pub mod Battery
pub mod Schedule
pub mod Outage
pub mod Phases
pub mod Transitions
pub mod Controls
pub mod Sections
pub mod Snapshots
pub mod Streams
pub mod Recovery
pub mod Status
pub mod Reach
pub mod Invariant
