-- ===== src/Window.antt =====
-- src/steamcompmgr_shared.hpp: steamcompmgr_win_t, and the part of commit_t (src/commit.h) that its
-- commit queue is about. An object's address is its field `addr`: two pointers are equal when these
-- are. A Window id of 0 is X11's `None`.
pub mod Predicates
pub mod Commits
use Prim.Native.Nat.{bit_or}
use cloud_desktop.Prelude.{ℕ, ◌^◌, Bool, true, false, Option, List, ◌==◌, if◌then◌else◌}
use cloud_desktop.Prelude.Int.{ℤ, pos}

pub record Rect : Type 0 where
  pub x : ℤ
  pub y : ℤ
  pub width : ℤ
  pub height : ℤ

pub record XwaylandWin : Type 0 where
  pub id : ℕ
  pub geometry : Rect
  pub override_redirect : Bool
  pub is_viewable : Bool
  pub is_input_output : Bool
  pub map_sequence : ℕ
  pub damage_sequence : ℕ
  pub transient_for : ℕ

pub record XdgWin : Type 0 where
  pub id : ℕ
  pub geometry : Rect

-- `type` and the variant `_window_types` in one.
pub data WinType : Type 0 where
  xwayland : XwaylandWin → WinType
  xdg : XdgWin → WinType

pub record Commit : Type 0 where
  pub commit_id : ℕ
  pub done : Bool
  pub engine_name : Option ℕ
  pub earliest_present_time : ℕ
  pub present_margin : ℕ

pub record Win : Type 0 where
  pub addr : ℕ
  pub type : WinType
  pub seq : ℕ
  pub pid : ℕ
  pub app_id : ℕ
  pub opacity : ℕ
  pub is_steam_legacy_big_picture : Bool
  pub is_steam_streaming_client : Bool
  pub is_steam_streaming_client_video : Bool
  pub is_overlay : Bool
  pub is_external_overlay : Bool
  pub is_fullscreen : Bool
  pub is_sys_tray_icon : Bool
  pub skip_taskbar : Bool
  pub skip_pager : Bool
  pub requested_width : ℕ
  pub requested_height : ℕ
  pub is_dialog : Bool
  pub maybe_a_dropdown : Bool
  pub outdated_interactive_focus : Bool
  pub has_hwnd_style : Bool
  pub hwnd_style : ℕ
  pub has_hwnd_style_ex : Bool
  pub hwnd_style_ex : ℕ
  pub ignore_override_redirect : Bool
  pub has_target_vr_overlay : Bool
  pub needs_forwarding : Bool
  pub unlocked_for_frame_callback : Bool
  pub received_done_commit : Bool
  pub last_commit_first_latch_time : ℕ
  pub engine_name : Option ℕ
  pub commit_queue : List Commit

abbrev pub is_xwayland : WinType → Bool
is_xwayland (xwayland x) = true
is_xwayland (xdg x) = false

unfoldable pub get_geometry : Win → Rect
get_geometry w = elim w.type [ xwayland x ↦ x.geometry | xdg x ↦ x.geometry ]

unfoldable pub win_id : Win → ℕ
win_id w = elim w.type [ xwayland x ↦ x.id | xdg x ↦ x.id ]

-- gamescope::VirtualConnectorStrategies.
pub data VirtualConnectorStrategy : Type 0 where
  single_application steam_controlled per_app_id per_window : VirtualConnectorStrategy

abbrev pub non_steam_window_bit : ℕ
non_steam_window_bit = 2 ^ 63

abbrev pub reserved_bit : ℕ
reserved_bit = 2 ^ 62

abbrev pub steam_bootstrapper_key : ℕ
steam_bootstrapper_key = bit_or 1 reserved_bit

unfoldable pub get_virtual_connector_key : Win → VirtualConnectorStrategy → ℕ
get_virtual_connector_key w single_application = 0
get_virtual_connector_key w steam_controlled = 0
get_virtual_connector_key w per_app_id =
    if w.is_steam_legacy_big_picture
    then steam_bootstrapper_key
    else if w.app_id == 0
    then bit_or non_steam_window_bit w.seq
    else w.app_id
get_virtual_connector_key w per_window = w.seq
