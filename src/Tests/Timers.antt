-- ===== src/Tests/Timers.antt =====
-- The theorems on the vblank timer and on refresh rates at concrete inputs.
use cloud_desktop.Prelude.{
  ℕ, ◌+◌, ◌*◌, ◌/◌, ◌≤◌, ◌≡◌, ◌⊎◌, refl, min, max, false, some, List, [], ◌∷◌, arith,
}
use cloud_desktop.Refresh.{refresh_cycle_to_mhz, mhz_to_refresh_cycle}
use cloud_desktop.Refresh.Rounding.{mhz_to_refresh_cycle-undone}
use cloud_desktop.Vblank.State.{Env, VBlankScheduleTime, VBlankTimer, init, get_refresh}
use cloud_desktop.Vblank.Schedule.{calc_rolling_draw_time, calc_next_wakeup_time}
use cloud_desktop.Vblank.Wakeup.{IsGoodSchedule, calc_next_wakeup_time-IsGoodSchedule}
use cloud_desktop.Vblank.Rolling.{calc_rolling_draw_time_bounds}
use cloud_desktop.Vblank.Armed.{Call, arm, poll, process, draw_time, Inv}
use cloud_desktop.Vblank.History.{run, total_arms, MarkedEarly, IsOrdinary, run-init}
use cloud_desktop.Tests.Data.{env}

abbrev timer : VBlankTimer
timer = init 999_000_000 false

calc_next_wakeup_time-IsGoodSchedule_example :
    (s : VBlankScheduleTime) × (t' : VBlankTimer) × (calc_next_wakeup_time env timer false
      ≡ some (s, t'))
    × IsGoodSchedule env timer 16_666_667 s
unfolding init mhz_to_refresh_cycle refresh_cycle_to_mhz get_refresh
calc_next_wakeup_time-IsGoodSchedule_example =
    calc_next_wakeup_time-IsGoodSchedule env timer false 16_666_667 refl (omega arith) (omega arith)
      (omega arith) (omega arith)

-- The schedule and the timer that it comes to.
abbrev schedule : VBlankScheduleTime
schedule = record { target_vblank = 1_015_666_667; scheduled_wakeup_point = 1_011_016_667 }

calc_rolling_draw_time_bounds_example :
    ((4_000_000 ≤ timer.rolling_max_draw_time + 1_650_000 / 2)
      ⊎ (calc_rolling_draw_time timer 4_000_000 1_650_000 ≡ 4_000_000))
    × (min timer.rolling_max_draw_time 4_000_000 ≤ calc_rolling_draw_time timer 4_000_000 1_650_000)
    × (calc_rolling_draw_time timer 4_000_000 1_650_000 ≤ max timer.rolling_max_draw_time 4_000_000)
unfolding init
calc_rolling_draw_time_bounds_example =
    calc_rolling_draw_time_bounds timer 4_000_000 1_650_000
      (record { rolling = omega arith; draw_small = omega arith; rate = omega arith }) (omega arith)

-- The timer is armed, fires, and its vblank is handed over.
abbrev calls : List (Env × Call)
calls = (env, draw_time 2_000_000) ∷ (env, arm false) ∷ (env, poll []) ∷ (env, process) ∷ []

ordinary : (c : Call) → MarkedEarly c → IsOrdinary (env, c)
unfolding mhz_to_refresh_cycle refresh_cycle_to_mhz get_refresh
ordinary c m = record {
  cycle = 16_666_667;
  rate = refl;
  room = omega arith;
  room_compositing = omega arith;
  short = omega arith;
  early = omega arith;
  marked = m;
}

run-init_example :
    (t' : VBlankTimer) × (n : ℕ) × (run calls (init 999_000_000 false) ≡ some (t', n))
    × Inv t'
    × (n ≤ total_arms calls)
run-init_example = run-init 999_000_000 calls (omega arith) (
  ordinary (draw_time 2_000_000) tt,
  (ordinary (arm false) tt, (ordinary (poll []) tt, (ordinary process tt, tt))),
)

mhz_to_refresh_cycle-undone_example :
    (c : ℕ) × (mhz_to_refresh_cycle 60_000 ≡ some c)
    × (2 * (c * 60_000) ≤ 2_000_000_000_000 + 60_000)
    × (2_000_000_000_000 ≤ 2 * (c * 60_000) + 60_000 + 1)
    × (refresh_cycle_to_mhz c ≡ some 60_000)
mhz_to_refresh_cycle-undone_example = mhz_to_refresh_cycle-undone 60_000 (omega arith) (omega arith)

abbrev output_refresh : ℕ
output_refresh = 60_000
