-- ===== src/Drm.antt =====
-- src/Backends/DRMBackend.cpp: how a frame becomes an atomic commit. The objects of KMS (CRTCs, planes
-- and connectors) are known by their ids, and what is kept of their properties is in a store.
pub mod Store
pub mod Liftoff
pub mod Plan
pub mod Prepare
pub mod Commit
pub mod Tracking
pub mod Setting
pub mod Asking
pub mod Objects
pub mod Frames
pub mod History
pub mod Fallback
pub mod Presents
pub mod Layers
pub mod Ready
pub mod Answered
pub mod Flip
pub mod Shown
pub mod Forgotten
