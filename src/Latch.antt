-- ===== src/Latch.antt =====
-- src/steamcompmgr.cpp: which finished commits are latched at a vblank, and what this changes.
pub mod State
pub mod Vblank
pub mod Commit
pub mod Loops
pub mod Once
pub mod Given
pub mod Conserved
pub mod Done
pub mod Pacing
