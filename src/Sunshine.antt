-- ===== src/Sunshine.antt =====
-- src/Backends/SunshineBackend.cpp, with the fields sunshine_* of src/wlserver.hpp and their use in
-- src/wlserver.cpp: the slots that frames are drawn into, and their way to the output that Sunshine
-- copies from. The compositor's thread presents, and the Wayland thread commits.
pub mod Slots
pub mod Timer
pub mod Actions
pub mod Owners
pub mod Overlap
pub mod Stale
pub mod Resized
pub mod Signals
pub mod Handles
