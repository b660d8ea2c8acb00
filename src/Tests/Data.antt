-- ===== src/Tests/Data.antt =====
-- Windows, a timer and a compositor as they may be while a game runs at 60 Hz.
use cloud_desktop.Prelude.{ℕ, true, false, none, some, List, [], ◌∷◌}
use cloud_desktop.Prelude.Int.{pos}
use cloud_desktop.Window.{Rect, XwaylandWin, XdgWin, Win, WinType, Commit, xwayland, xdg}
use cloud_desktop.Vblank.State.{Env}
use cloud_desktop.Latch.State.{Compositor, CommitDoneEntry}
use cloud_desktop.Latch.Loops.{Tick}

abbrev pub env : Env
env = record {
  now = 1_000_000_000;
  nested_refresh = 0;
  output_refresh = 60_000;
  is_internal = false;
  vrr_active = false;
}

abbrev pub full_screen : Rect
full_screen = record { x = pos 0; y = pos 0; width = pos 1280; height = pos 800 }

abbrev pub plain : XwaylandWin
plain = record {
  id = 100;
  geometry = full_screen;
  override_redirect = false;
  is_viewable = true;
  is_input_output = true;
  map_sequence = 5;
  damage_sequence = 6;
  transient_for = 0;
}

-- The window of a game, by the address and what kind it is.
abbrev pub window : ℕ → WinType → Win
window addr type = record {
  addr = addr;
  type = type;
  seq = addr;
  pid = 4242;
  app_id = 620;
  opacity = 255;
  is_steam_legacy_big_picture = false;
  is_steam_streaming_client = false;
  is_steam_streaming_client_video = false;
  is_overlay = false;
  is_external_overlay = false;
  is_fullscreen = true;
  is_sys_tray_icon = false;
  skip_taskbar = false;
  skip_pager = false;
  requested_width = 0;
  requested_height = 0;
  is_dialog = false;
  maybe_a_dropdown = false;
  outdated_interactive_focus = false;
  has_hwnd_style = false;
  hwnd_style = 0;
  has_hwnd_style_ex = false;
  hwnd_style_ex = 0;
  ignore_override_redirect = false;
  has_target_vr_overlay = false;
  needs_forwarding = false;
  unlocked_for_frame_callback = true;
  received_done_commit = true;
  last_commit_first_latch_time = 0;
  engine_name = none;
  commit_queue = [];
}

abbrev pub game : Win
game = window 7 (xwayland plain)

abbrev pub menu_type : XwaylandWin
menu_type = record plain { id = 101; override_redirect = true; transient_for = 100 }

-- A menu of the game.
abbrev pub menu : Win
menu = window 3 (xwayland menu_type)

abbrev pub dialog_type : XwaylandWin
dialog_type = record plain { id = 102; transient_for = 100; map_sequence = 9 }

-- A window of the game that takes the focus over from it.
abbrev pub dialog : Win
dialog = window 4 (xwayland dialog_type)

abbrev pub xdg_type : XdgWin
xdg_type = record { id = 200; geometry = full_screen }

abbrev pub xdg_game : Win
xdg_game = window 8 (xdg xdg_type)

abbrev pub finished : Commit
finished = record {
  commit_id = 31;
  done = true;
  engine_name = none;
  earliest_present_time = 0;
  present_margin = 0;
}

abbrev pub waiting_commit : Commit
waiting_commit = record finished { commit_id = 32; done = false }

-- The game with two commits that have not finished and one that has.
abbrev pub drawing : Win
drawing = record game {
  commit_queue = finished ∷ waiting_commit ∷ record waiting_commit { commit_id = 33 } ∷ [];
}

abbrev pub compositor : Compositor
compositor = record {
  nested_refresh = 0;
  output_refresh = 60_000;
  has_connector = true;
  vrr_active = false;
  target_fps = 30;
  limited_app_refresh_cycle = 33_333_333;
  lowest_fps_limit_schedule_vrr = none;
  pause_base_plane = false;
  focuses =
      record {
        overlay_window = none;
        notification_window = none;
        external_overlay_window = none;
        focus_window = some 7;
        focus_is_streaming_client = false;
        override_window = none;
      }
      ∷ [];
  has_repaint = false;
  has_repaint_non_base_plane = false;
  force_repaint = false;
  update_forwarded_vr_overlays = false;
  held_base = none;
  focus_engine = none;
  focus_pid = 0;
  focus_serial = 0;
}

abbrev pub entry : CommitDoneEntry
entry = record {
  win_seq = 7;
  commit_id = 32;
  desired_present_time = 0;
  earliest_present_time = 0;
  earliest_latch_time = 0;
  fifo = true;
}

-- A second commit of the window, and one that is wanted later.
abbrev pub entries : List CommitDoneEntry
entries = entry ∷ record entry { commit_id = 33 } ∷ []

abbrev pub later_entry : CommitDoneEntry
later_entry = record entry { fifo = false; desired_present_time = 5_000_000_000 }

abbrev pub tick : Tick
tick = record {
  vblank = true;
  vblank_idx = 4;
  now = 1_000_000_000;
  next_refresh_time = 1_016_666_667;
}
