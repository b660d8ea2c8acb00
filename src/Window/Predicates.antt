-- ===== src/Window/Predicates.antt =====
-- src/steamcompmgr.cpp: the predicates by which windows are ranked and filtered.
use Prim.Native.Nat.{bit_and, bit_or}
use cloud_desktop.Prelude.{ℕ, Bool, true, false, not, ◌&&◌, ◌||◌, ◌==◌, if◌then◌else◌}
use cloud_desktop.Prelude.Int.{ℤ, pos, negsuc}
use cloud_desktop.Window.{Win, xwayland, xdg, get_geometry}

abbrev pub is_one : ℤ → Bool
is_one (pos n) = n == 1
is_one (negsuc n) = false

unfoldable pub win_has_game_id : Win → Bool
win_has_game_id w = not (w.app_id == 0)

unfoldable pub win_is_useless : Win → Bool
unfolding get_geometry
win_is_useless w =
    if w.is_sys_tray_icon
    then true
    else is_one (get_geometry w).width && is_one (get_geometry w).height

unfoldable pub win_is_override_redirect : Win → Bool
win_is_override_redirect w = elim w.type [
  | xdg _ ↦ false
  | xwayland x ↦ x.override_redirect && not w.ignore_override_redirect && not (win_is_useless w)
]

unfoldable pub win_skip_taskbar_and_pager : Win → Bool
win_skip_taskbar_and_pager w = w.skip_taskbar && w.skip_pager

unfoldable pub win_skip_and_not_fullscreen : Win → Bool
unfolding win_skip_taskbar_and_pager
win_skip_and_not_fullscreen w = win_skip_taskbar_and_pager w && not w.is_fullscreen

-- src/win32_styles.h
abbrev pub ws_disabled : ℕ
ws_disabled = 0x0800_0000

abbrev pub ws_ex_controlparent : ℕ
ws_ex_controlparent = 0x0001_0000

abbrev pub ws_ex_appwindow : ℕ
ws_ex_appwindow = 0x0004_0000

abbrev pub ws_ex_layered : ℕ
ws_ex_layered = 0x0008_0000

-- A layered window that is no top-level one.
unfoldable pub has_dropdown_style_ex : Win → Bool
has_dropdown_style_ex w =
    let valid_layered = bit_or ws_ex_controlparent ws_ex_layered in
    w.has_hwnd_style_ex
    && bit_and w.hwnd_style_ex valid_layered == valid_layered
    && bit_and w.hwnd_style_ex ws_ex_appwindow == 0

-- The fall-through case at the end of win_maybe_a_dropdown.
unfoldable pub dropdown_by_hints : Win → ℕ → Bool
dropdown_by_hints w transient_for =
    let valid_maybe_a_dropdown =
      w.maybe_a_dropdown
      && (not w.is_dialog || (transient_for == 0 && win_skip_and_not_fullscreen w))
      && (w.skip_pager || w.skip_taskbar) in
    (valid_maybe_a_dropdown || win_is_override_redirect w) && not (win_is_useless w)

unfoldable pub win_maybe_a_dropdown : Win → Bool
unfolding dropdown_by_hints has_dropdown_style_ex
win_maybe_a_dropdown w = elim w.type [
  | xdg _ ↦ false
  | xwayland x ↦
      if w.app_id == 230410
        && w.maybe_a_dropdown
        && not (x.transient_for == 0)
        && (w.skip_pager || w.skip_taskbar)
      then not (win_is_useless w)
      else if w.app_id == 219890
      then false
      else if has_dropdown_style_ex w
      then true
      else if (w.app_id == 1293830 || w.app_id == 1551360)
          && w.maybe_a_dropdown
          && w.requested_width == 0
          && w.requested_height == 0
      then false
      else dropdown_by_hints w x.transient_for
]

unfoldable pub win_is_disabled : Win → Bool
win_is_disabled w = if w.has_hwnd_style then not (bit_and w.hwnd_style ws_disabled == 0) else false

unfoldable pub window_is_steam : Win → Bool
window_is_steam w = w.is_steam_legacy_big_picture || w.app_id == 769

unfoldable pub window_is_vr_scene_app : ℕ → Win → Bool
window_is_vr_scene_app current_vr_scene_app w =
    not (w.app_id == 0) && w.app_id == current_vr_scene_app

unfoldable pub window_should_limit_fps : ℕ → Win → Bool
unfolding window_is_steam window_is_vr_scene_app
window_should_limit_fps current_vr_scene_app w =
    not (window_is_steam w)
    && not (window_is_vr_scene_app current_vr_scene_app w)
    && not w.is_overlay
    && not w.is_external_overlay
