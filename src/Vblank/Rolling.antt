-- ===== src/Vblank/Rolling.antt =====
-- The rolling draw time and the red zone of CalcNextWakeupTime (src/vblankmanager.cpp).
use cloud_desktop.Prelude.{
  ℕ, ◌+◌, ◌-◌, ◌*◌, ◌/◌, ◌^◌, ◌≤◌, ◌<◌, ◌≡◌, sym, ◌∙◌, min, max, ◌⊎◌, Bool, false, some, arith,
  u64_mod,
}
use native.Mathlib.Nat.{add-mul}
use cloud_desktop.Vblank.State.{
  VBlankScheduleTime, rate_of_decay_max, Env, VBlankTimer, get_refresh,
}
use cloud_desktop.Vblank.Schedule.{
  calc_red_zone, calc_rolling_draw_time, calc_offset, calc_next_wakeup_time,
}

-- A weighted mean lies between its parts.
mean_bounds :
    (a r d : ℕ)
    → a ≤ 1000
    → (min r d * 1000 ≤ a * r + (1000 - a) * d) × (a * r + (1000 - a) * d ≤ max r d * 1000)
mean_bounds a r d h = (
  omega (arith, part (omega arith), part' (omega arith), whole (min r d)),
  omega (arith, over (omega arith), over' (omega arith), whole (max r d)),
)
  where
    whole : (m : ℕ) → a * m + (1000 - a) * m ≡ 1000 * m
    whole m = let e : a + (1000 - a) ≡ 1000 = omega arith in sym (add-mul a (1000 - a) m) ∙ rw e

    part : min r d ≤ r → a * min r d ≤ a * r
    part p = grind arith

    part' : min r d ≤ d → (1000 - a) * min r d ≤ (1000 - a) * d
    part' p = grind arith

    over : r ≤ max r d → a * r ≤ a * max r d
    over p = grind arith

    over' : d ≤ max r d → (1000 - a) * d ≤ (1000 - a) * max r d
    over' p = grind arith

-- The draw time of a timer that does not overflow: times below 2 ^ 52 and a rate of decay of at
-- most 100 %.
pub record IsSmall (t : VBlankTimer) (draw : ℕ) : Type 0 where
  pub rolling : t.rolling_max_draw_time < 2 ^ 52
  pub draw_small : draw < 2 ^ 52
  pub rate : t.rate_of_decay_percentage ≤ rate_of_decay_max

-- Before it is clamped, the new rolling draw time is the draw time itself where that exceeds the old
-- rolling time by more than half of the red zone, and it always lies between the two: for times below
-- 2 ^ 52 and a rate of decay of at most 100 %.
pub calc_rolling_draw_time_bounds :
    (t : VBlankTimer) (draw red_zone : ℕ)
    → IsSmall t draw
    → red_zone < 2 ^ 52
    → ((draw ≤ t.rolling_max_draw_time + red_zone / 2)
        ⊎ (calc_rolling_draw_time t draw red_zone ≡ draw))
      × (min t.rolling_max_draw_time draw ≤ calc_rolling_draw_time t draw red_zone)
      × (calc_rolling_draw_time t draw red_zone ≤ max t.rolling_max_draw_time draw)
unfolding calc_rolling_draw_time
calc_rolling_draw_time_bounds t draw red_zone small z =
    ground (arith, mean_bounds t.rate_of_decay_percentage t.rolling_max_draw_time draw)

-- A pre-emptive call leaves the timer as it was; another one changes the rolling draw time only.
pub calc_next_wakeup_time_keeps :
    (e : Env) (t : VBlankTimer) (preemptive : Bool) {s : VBlankScheduleTime} {t' : VBlankTimer}
    → calc_next_wakeup_time e t preemptive ≡ some (s, t')
    → ((preemptive ≡ false) ⊎ (t' ≡ t))
      × (t' ≡ record t { rolling_max_draw_time = t'.rolling_max_draw_time })
unfolding calc_next_wakeup_time calc_offset
calc_next_wakeup_time_keeps e t preemptive h = ground arith

-- The scaling of the red zone never takes effect: at a refresh rate that is not 0 and whose product
-- with the zone does not overflow, external displays get the same red zone as internal ones.
calc_red_zone_unscaled :
    (e : Env) (t : VBlankTimer)
    → 0 < get_refresh e
    → t.draw_buffer_red_zone * 60_000 * get_refresh e < u64_mod
    → calc_red_zone e t ≡ t.draw_buffer_red_zone
unfolding calc_red_zone
calc_red_zone_unscaled e t p h = ground (arith, grows)
  where
    grows : t.draw_buffer_red_zone * 60_000 ≤ t.draw_buffer_red_zone * 60_000 * get_refresh e
    grows = grind arith
