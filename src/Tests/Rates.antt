-- ===== src/Tests/Rates.antt =====
-- A refresh rate that is chosen and settles, and a commit that waits (src/steamcompmgr.cpp,
-- src/commit.cpp).
use cloud_desktop.Prelude.{
  ◌*◌, ◌/◌, ◌≡◌, refl, true, false, none, some, List, [], ◌∷◌, arith, find_first,
}
use cloud_desktop.Window.Predicates.{window_should_limit_fps}
use cloud_desktop.Dynamic.{
  Connector, Frame, Rates, ScreenType, current_output_hz, reverse_onto,
  set_app_refresh_cycle_override, should_refresh_switch, target_refresh_hz,
  update_app_target_refresh_cycle, update_target,
}
use cloud_desktop.Dynamic.Choice.{IsChosen, set_app_refresh_cycle_override-IsChosen}
use cloud_desktop.Dynamic.Settling.{run_frames, run_frames-settled}
use cloud_desktop.Dynamic.Wanted.{wanted}
use cloud_desktop.Fence.{Event, Fences, done_entry, handle_all, push_wait}
use cloud_desktop.Fence.Once.{Leaves, is_closed, is_signalled, push_wait_once}
use cloud_desktop.Tests.Data.{game}

abbrev handheld : Connector
handheld = record {
  screen_type = ScreenType.internal;
  valid_dynamic_refresh_rates = 45 ∷ 60 ∷ 80 ∷ 90 ∷ [];
  vrr_active = false;
}

-- The display runs at 90 Hz.
abbrev at_ninety : Rates
at_ninety = record {
  app_refresh_cycle_override = λ t. 0;
  change_refresh = λ t. true;
  change_fps = λ t. true;
  dynamic_refresh_rate = λ t. 0;
  target_fps = 0;
  equality_time = 1_000_000_000;
  dynamic_refresh_hz = 0;
  output_refresh = 90_000;
  runtime_infos = 0;
}

unfoldable forty_asked : Rates
unfolding set_app_refresh_cycle_override update_app_target_refresh_cycle update_target reverse_onto
    find_first
forty_asked =
    set_app_refresh_cycle_override (some handheld) ScreenType.internal 40 true true at_ninety

-- 80 Hz is chosen for 40 frames per second.
forty_asked-eighty : forty_asked.dynamic_refresh_rate ScreenType.internal ≡ 80
unfolding forty_asked
forty_asked-eighty = refl

forty_asked_eq :
    set_app_refresh_cycle_override (some handheld) ScreenType.internal 40 true true at_ninety
    ≡ forty_asked
unfolding forty_asked
forty_asked_eq = refl

set_app_refresh_cycle_override-IsChosen_example :
    IsChosen handheld 40 true true at_ninety forty_asked
    × (forty_asked.dynamic_refresh_rate ScreenType.internal / 40 * 40
        ≡ forty_asked.dynamic_refresh_rate ScreenType.internal)
set_app_refresh_cycle_override-IsChosen_example =
    set_app_refresh_cycle_override-IsChosen handheld 40 true true at_ninety forty_asked
      (omega arith) forty_asked_eq

-- A game is in front.
abbrev playing : Frame
playing = record {
  connector = handheld;
  app = 0;
  based_on_open = false;
  focus_windows = [];
  focus_window = some game;
  mode_set = some 80_000;
}

playing-wants : wanted playing forty_asked ≡ 80
unfolding wanted target_refresh_hz should_refresh_switch forty_asked window_should_limit_fps
playing-wants = refl

forty_asked-time : forty_asked.equality_time ≡ 1_000_000_000
unfolding forty_asked
forty_asked-time = refl

run_frames-settled_example :
    current_output_hz
      (run_frames playing (1_200_000_000 ∷ 1_400_000_000 ∷ 1_700_000_000 ∷ []) forty_asked)
    ≡ wanted playing forty_asked
run_frames-settled_example =
    run_frames-settled playing (1_200_000_000 ∷ 1_400_000_000 ∷ []) 1_700_000_000 80_000 forty_asked
      refl refl (omega (arith, playing-wants)) (omega (arith, forty_asked-time)) (omega arith)

abbrev new_commit : Fences
new_commit = record {
  commit = record {
    win_seq = 3;
    commit_id = 17;
    desired_present_time = 0;
    fifo = true;
    is_steam = false;
    present_time = 0;
    commit_fence = none;
    mango_nudge = true;
  };
  added = false;
  closed = [];
  done_commits = [];
  last_frame_time = some 400;
  overlay_updates = [];
  nudges = 0;
}

-- The descriptor 9 can be read, and hangs up later.
abbrev read_then_end : List Event
read_then_end = Event.polled true false 500 ∷ Event.polled false true 600 ∷ Event.destroyed ∷ []

push_wait_once_example :
    Leaves
      (done_entry new_commit.commit ∷ [])
      (9 ∷ [])
      new_commit
      (handle_all read_then_end (push_wait (some 9) true false false 450 new_commit))
unfolding is_signalled is_closed
push_wait_once_example = push_wait_once 9 true false false 450 read_then_end new_commit refl refl
