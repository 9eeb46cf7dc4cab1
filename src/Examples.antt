-- ===== src/Examples.antt =====
-- Concrete inputs, and each property at one of them.
mod Runs
mod Inputs
mod Requests
mod Logins
mod Controls
mod Moves
mod Polls
mod Loops
mod Files
mod Pages
mod Devices
