-- ===== src/Vblank/Schedule.antt =====
-- CVBlankTimer::GetNextVBlank and CVBlankTimer::CalcNextWakeupTime (src/vblankmanager.cpp).
use cloud_desktop.Prelude.{
  ◌>>=◌, ℕ, zero, suc, ◌+◌, ◌*◌, ◌/◌, min, max, Bool, Option, none, some, ltb, if◌then◌else◌, u64,
  sub_u64,
}
use cloud_desktop.Prelude.Int.{◌-ℤ◌, ltb_ℤ, to_i64}
use cloud_desktop.Refresh.{mhz_to_refresh_cycle}
use cloud_desktop.Vblank.State.{
  VBlankScheduleTime, starting_vblank_draw_time, rate_of_decay_max, vrr_flushing_time, Env,
  VBlankTimer, get_refresh,
}

-- while ( ulTargetPoint < ulNow ) ulTargetPoint += ulIntervalNSecs; `none` when the fuel is out.
unfoldable pub advance : ℕ → ℕ → ℕ → ℕ → Option ℕ
advance zero now interval target = none
advance (suc fuel) now interval target =
    let rest = advance fuel now interval (u64 (target + interval)) in
    if ltb target now then rest else some target

-- The fuel is one round for each nanosecond that the target may lag behind, and one more.
unfoldable pub get_next_vblank : Env → VBlankTimer → ℕ → Option ℕ
unfolding advance
get_next_vblank e t offset = do
  interval ← mhz_to_refresh_cycle (get_refresh e)
  advance (suc e.now) e.now interval (sub_u64 (u64 (t.last_vblank + interval)) offset)

-- The red zone, "scaled by our target refresh" on displays that are not internal.
unfoldable pub calc_red_zone : Env → VBlankTimer → ℕ
unfolding get_refresh
calc_red_zone e t =
    if e.is_internal
    then t.draw_buffer_red_zone
    else min t.draw_buffer_red_zone
        (u64 (u64 (t.draw_buffer_red_zone * 60_000) * get_refresh e) / 60_000)

unfoldable pub calc_draw_time : VBlankTimer → ℕ → ℕ
calc_draw_time t draw =
    if t.currently_compositing then max draw t.draw_time_min_compositing else draw

-- The new rolling draw time, before it is clamped: a jump up, or a decaying average.
unfoldable pub calc_rolling_draw_time : VBlankTimer → ℕ → ℕ → ℕ
unfolding ◌-ℤ◌
calc_rolling_draw_time t draw red_zone =
    if ltb_ℤ (to_i64 t.rolling_max_draw_time) (to_i64 draw -ℤ to_i64 (red_zone / 2))
    then draw
    else u64 (
        u64 (t.rate_of_decay_percentage * t.rolling_max_draw_time)
        + u64 (sub_u64 rate_of_decay_max t.rate_of_decay_percentage * draw))
      / rate_of_decay_max

-- The offset before the vblank, and the timer with its rolling draw time updated.
unfoldable pub calc_offset_fixed : Env → VBlankTimer → Bool → ℕ → ℕ × VBlankTimer
unfolding calc_red_zone calc_draw_time calc_rolling_draw_time
calc_offset_fixed e t preemptive interval =
    let red_zone = calc_red_zone e t in
    let draw = calc_draw_time t t.last_draw_time in
    let rolling = min (calc_rolling_draw_time t draw red_zone) (sub_u64 interval red_zone) in
    (
      u64 (rolling + red_zone),
      (if preemptive then t else record t { rolling_max_draw_time = rolling }),
    )

unfoldable pub calc_offset_vrr : VBlankTimer → Bool → ℕ × VBlankTimer
unfolding calc_draw_time
calc_offset_vrr t preemptive = (
  u64 (calc_draw_time t 0 + vrr_flushing_time),
  (if preemptive then t else record t { rolling_max_draw_time = starting_vblank_draw_time }),
)

unfoldable pub calc_offset : Env → VBlankTimer → Bool → ℕ → ℕ × VBlankTimer
unfolding calc_offset_fixed calc_offset_vrr
calc_offset e t preemptive interval =
    if e.vrr_active then calc_offset_vrr t preemptive else calc_offset_fixed e t preemptive interval

-- `none` is the division by zero at a refresh rate of 0.
unfoldable pub calc_next_wakeup_time :
    Env → VBlankTimer → Bool → Option (VBlankScheduleTime × VBlankTimer)
calc_next_wakeup_time e t preemptive = do
  interval ← mhz_to_refresh_cycle (get_refresh e)
  let (offset, t') = calc_offset e t preemptive interval
  wakeup ← get_next_vblank e t' offset
  some (record { target_vblank = u64 (wakeup + offset); scheduled_wakeup_point = wakeup }, t')
