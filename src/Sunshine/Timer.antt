-- ===== src/Sunshine/Timer.antt =====
-- src/wlserver.cpp: how often frames are signalled to Sunshine. GAMESCOPE_SUNSHINE_VBLANK_MODE chooses
-- between a signal for each frame and a timer.
use Prim.Native.String.{String}
use text.Mathlib.Text.{◌==◌ as str_eq}
use cloud_desktop.Prelude.{
  ℕ, ◌/◌, ◌≡◌, refl, ◌≤◌, ◌↔◌, ◌⊎◌, inl, ◌||◌, ◌==◌, ltb, if◌then◌else◌, Option, none, some, arith,
}

unfoldable pub vblank_mode : Option String → ℕ
vblank_mode none = 0
vblank_mode (some mode) =
    if str_eq mode "direct" || str_eq mode "0"
    then 0
    else if str_eq mode "4x" || str_eq mode "4"
    then 4
    else if str_eq mode "2x" || str_eq mode "2"
    then 2
    else if str_eq mode "1x" || str_eq mode "1"
    then 1
    else 0

-- The interval of the timer in milliseconds, for a refresh rate in mHz; the timer is armed with it at
-- first and after each time that it fires.
unfoldable pub timer_interval : ℕ → ℕ → ℕ
timer_interval mode refresh =
    let hz = if ltb 0 refresh then refresh / 1000 else 60 in
    let rate = if hz == 0 then 60 else hz in
    if mode == 0 then 100 else if mode == 4 then 4 else if mode == 2 then 8 else 1000 / rate

mode_cases :
    (env : Option String)
    → (vblank_mode env ≡ 0) ⊎ (vblank_mode env ≡ 1) ⊎ (vblank_mode env ≡ 2) ⊎ (vblank_mode env ≡ 4)
unfolding vblank_mode
mode_cases none = inl refl
mode_cases (some mode) = ground arith

interval_zero :
    (mode refresh : ℕ)
    → (mode ≡ 0) ⊎ (mode ≡ 1) ⊎ (mode ≡ 2) ⊎ (mode ≡ 4)
    → timer_interval mode refresh ≡ 0
    → (mode ≡ 1) × (1001000 ≤ refresh)
unfolding timer_interval
interval_zero mode refresh c e = grind arith

interval_disarmed :
    (mode refresh : ℕ) → mode ≡ 1 → 1001000 ≤ refresh → timer_interval mode refresh ≡ 0
unfolding timer_interval
interval_disarmed mode refresh e h = grind arith

-- An interval of 0 disarms the timer, and with it the heartbeat. Whatever the environment variable
-- says, that is the case exactly if the mode is 1x and the refresh rate is at least 1001 Hz.
timer_interval-disarmed :
    (env : Option String) (refresh : ℕ)
    → (timer_interval (vblank_mode env) refresh ≡ 0) ↔ ((vblank_mode env ≡ 1) × (1001000 ≤ refresh))
timer_interval-disarmed env refresh = (
  λ e. interval_zero (vblank_mode env) refresh (mode_cases env) e,
  λ h. interval_disarmed (vblank_mode env) refresh h.0 h.1,
)
