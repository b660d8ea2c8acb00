-- ===== src/Vblank/State.antt =====
-- The state of CVBlankTimer (src/vblankmanager.hpp) and the small accessors.
use cloud_desktop.Prelude.{ℕ, Bool, true, false, Option, none, ◌==◌, if◌then◌else◌}

pub record VBlankScheduleTime : Type 0 where
  pub target_vblank : ℕ
  pub scheduled_wakeup_point : ℕ

pub record VBlankTime : Type 0 where
  pub schedule : VBlankScheduleTime
  pub wakeup_time : ℕ

abbrev pub starting_vblank_draw_time : ℕ
starting_vblank_draw_time = 3_000_000

abbrev pub default_vblank_red_zone : ℕ
default_vblank_red_zone = 1_650_000

abbrev pub default_draw_time_min_compositing : ℕ
default_draw_time_min_compositing = 2_400_000

abbrev pub default_rate_of_decay_percentage : ℕ
default_rate_of_decay_percentage = 980

abbrev pub rate_of_decay_max : ℕ
rate_of_decay_max = 1000

abbrev pub vrr_flushing_time : ℕ
vrr_flushing_time = 300_000

-- What a call reads: `get_time_in_nanos()`, `g_nNestedRefresh`, `g_nOutputRefresh`, the screen
-- type, and whether a current connector has VRR active.
pub record Env : Type 0 where
  pub now : ℕ
  pub nested_refresh : ℕ
  pub output_refresh : ℕ
  pub is_internal : Bool
  pub vrr_active : Bool

-- `using_timer_fd` is `m_nNudgePipe[ 0 ] < 0`. `timer_fd` is the absolute time that the kernel
-- timer behind ITimerWaitable is set to, if it is armed.
pub record VBlankTimer : Type 0 where
  pub last_vblank : ℕ
  pub armed : Bool
  pub running : Bool
  pub pending_vblank : Option VBlankTime
  pub timer_fd_schedule : VBlankScheduleTime
  pub using_timer_fd : Bool
  pub timer_fd : Option ℕ
  pub currently_compositing : Bool
  pub last_draw_time : ℕ
  pub rolling_max_draw_time : ℕ
  pub draw_buffer_red_zone : ℕ
  pub draw_time_min_compositing : ℕ
  pub rate_of_decay_percentage : ℕ

-- The timer as CVBlankTimer's constructor leaves it, at a time `now`.
unfoldable pub init : ℕ → Bool → VBlankTimer
init now needs_frame_sync = record {
  last_vblank = now;
  armed = false;
  running = true;
  pending_vblank = none;
  timer_fd_schedule = record { target_vblank = 0; scheduled_wakeup_point = 0 };
  using_timer_fd = if needs_frame_sync then false else true;
  timer_fd = none;
  currently_compositing = false;
  last_draw_time = starting_vblank_draw_time;
  rolling_max_draw_time = starting_vblank_draw_time;
  draw_buffer_red_zone = default_vblank_red_zone;
  draw_time_min_compositing = default_draw_time_min_compositing;
  rate_of_decay_percentage = default_rate_of_decay_percentage;
}

unfoldable pub get_refresh : Env → ℕ
get_refresh e = if e.nested_refresh == 0 then e.output_refresh else e.nested_refresh

unfoldable pub was_compositing : VBlankTimer → Bool
was_compositing t = t.currently_compositing

unfoldable pub update_was_compositing : VBlankTimer → Bool → VBlankTimer
update_was_compositing t compositing = record t { currently_compositing = compositing }

unfoldable pub update_last_draw_time : VBlankTimer → ℕ → VBlankTimer
update_last_draw_time t nanos = record t { last_draw_time = nanos }
