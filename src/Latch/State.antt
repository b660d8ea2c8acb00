-- ===== src/Latch/State.antt =====
-- The globals of src/steamcompmgr.cpp that latching commits reads and writes, and the entries of the
-- lists of finished commits (src/xwayland_ctx.hpp).
use cloud_desktop.Prelude.{ℕ, ◌+◌, Bool, Option, List}

-- CommitDoneEntry_t
pub record CommitDoneEntry : Type 0 where
  pub win_seq : ℕ
  pub commit_id : ℕ
  pub desired_present_time : ℕ
  pub earliest_present_time : ℕ
  pub earliest_latch_time : ℕ
  pub fifo : Bool

-- The windows of a global_focus_t, by address; `focus_is_streaming_client` is a flag of the focused
-- window, if there is one.
pub record GlobalFocus : Type 0 where
  pub overlay_window : Option ℕ
  pub notification_window : Option ℕ
  pub external_overlay_window : Option ℕ
  pub focus_window : Option ℕ
  pub focus_is_streaming_client : Bool
  pub override_window : Option ℕ

-- `has_connector` and `vrr_active` are what the backend's current connector says; refresh rates are
-- in mHz. `held_base` is the id of the commit in g_HeldCommits[ HELD_COMMIT_BASE ], and
-- `focus_serial` counts the calls of MakeFocusDirty.
pub record Compositor : Type 0 where
  pub nested_refresh : ℕ
  pub output_refresh : ℕ
  pub has_connector : Bool
  pub vrr_active : Bool
  pub target_fps : ℕ
  pub limited_app_refresh_cycle : ℕ
  pub lowest_fps_limit_schedule_vrr : Option ℕ
  pub pause_base_plane : Bool
  pub focuses : List GlobalFocus
  pub has_repaint : Bool
  pub has_repaint_non_base_plane : Bool
  pub force_repaint : Bool
  pub update_forwarded_vr_overlays : Bool
  pub held_base : Option ℕ
  pub focus_engine : Option ℕ
  pub focus_pid : ℕ
  pub focus_serial : ℕ

unfoldable pub make_focus_dirty : Compositor → Compositor
make_focus_dirty c = record c { focus_serial = c.focus_serial + 1 }
