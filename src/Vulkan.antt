-- ===== src/Vulkan.antt =====
-- src/rendervulkan.cpp: command buffers, the images they use, and the device that recycles them.
pub mod Images
pub mod Record
pub mod Calls
pub mod Barriers
pub mod Hazards
pub mod Ending
pub mod Device
pub mod Recycling
pub mod Steps
pub mod Invariant
pub mod Reuse
