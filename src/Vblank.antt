-- ===== src/Vblank.antt =====
-- src/vblankmanager.hpp and src/vblankmanager.cpp: CVBlankTimer, which predicts the next vblank
-- and says when to wake up for it. Times are uint64_t nanoseconds. What the methods read from
-- outside (the clock, the refresh rates, the backend's connector) is a record of type `Env`.
pub mod State
pub mod Schedule
pub mod Wakeup
pub mod Rolling
pub mod Arming
pub mod Armed
pub mod History
