-- ===== src/Focus.antt =====
-- src/steamcompmgr.cpp: which window has the focus, and which one is shown over it.
pub mod Priority
pub mod Order
pub mod Focusable
pub mod Ranking
pub mod Pick
pub mod Initial
pub mod Chosen
pub mod Sound
pub mod Links
