-- ===== src/Tests.antt =====
-- Concrete inputs, and the theorems applied to them.
mod Data
mod Timers
mod Windows
mod Commits
mod Searches
mod Characters
mod Rates
mod Edids
mod Buffers
mod Handles
mod Streams
mod Displays
