-- ===== src/Dynamic.antt =====
-- src/steamcompmgr.cpp: the refresh cycle that is chosen for the app, and the switch of the display to
-- it. Rates are natural numbers (no client asks for a negative one). The connector is what the backend
-- says of its current one; the writing of the runtime information is counted.
pub mod Choice
pub mod Settling
pub mod Wanted
use cloud_desktop.Prelude.{
  ℕ, ◌+◌, ◌%◌, Bool, true, false, not, ◌&&◌, ◌||◌, ◌==◌, ◌=ᵇ◌, ltb, if◌then◌else◌, Option, none,
  some, List, [], ◌∷◌, find_first, u64,
}
use cloud_desktop.Refresh.{convert_mhz_to_hz}
use cloud_desktop.Window.{Win}
use cloud_desktop.Window.Predicates.{window_should_limit_fps}

pub data ScreenType : Type 0 where
  internal : ScreenType
  external : ScreenType

abbrev pub is_screen : ScreenType → ScreenType → Bool
is_screen ScreenType.internal ScreenType.internal = true
is_screen ScreenType.internal ScreenType.external = false
is_screen ScreenType.external ScreenType.internal = false
is_screen ScreenType.external ScreenType.external = true

pub record Connector : Type 0 where
  pub screen_type : ScreenType
  pub valid_dynamic_refresh_rates : List ℕ
  pub vrr_active : Bool

-- The globals, with g_nDynamicRefreshHz and g_nOutputRefresh, which the backend sets.
pub record Rates : Type 0 where
  pub app_refresh_cycle_override : ScreenType → ℕ
  pub change_refresh : ScreenType → Bool
  pub change_fps : ScreenType → Bool
  pub dynamic_refresh_rate : ScreenType → ℕ
  pub target_fps : ℕ
  pub equality_time : ℕ
  pub dynamic_refresh_hz : ℕ
  pub output_refresh : ℕ
  pub runtime_infos : ℕ

abbrev pub set_at {ℓ} : {A : Type ℓ} → ScreenType → A → (ScreenType → A) → ScreenType → A
set_at t v f u = if is_screen t u then v else f u

unfoldable pub reverse_onto {ℓ} : {A : Type ℓ} → List A → List A → List A
reverse_onto [] ys = ys
reverse_onto (x ∷ xs) ys = reverse_onto xs (x ∷ ys)

abbrev pub divides : ℕ → ℕ → Bool
divides target rate = rate % target == 0

abbrev pub or_zero : Option ℕ → ℕ
or_zero none = 0
or_zero (some r) = r

-- _update_app_target_refresh_cycle
unfoldable pub update_target : Option Connector → Rates → Rates
unfolding reverse_onto
update_target none s = s
update_target (some c) s =
    let t = c.screen_type in
    let target = s.app_refresh_cycle_override t in
    let cleared = record s {
      dynamic_refresh_rate = set_at t 0 s.dynamic_refresh_rate;
      target_fps = 0;
    } in
    if target == 0
    then cleared
    else let limited = if s.change_fps t then record cleared { target_fps = target } else cleared in
      if s.change_refresh t
      then record limited {
        dynamic_refresh_rate =
            set_at t
              (or_zero
                (find_first (divides target) (reverse_onto c.valid_dynamic_refresh_rates [])))
              s.dynamic_refresh_rate;
      }
      else limited

unfoldable pub update_app_target_refresh_cycle : Option Connector → Rates → Rates
unfolding update_target
update_app_target_refresh_cycle c s =
    let s' = update_target c s in
    if (s'.target_fps == 0) =ᵇ (s.target_fps == 0)
    then s'
    else record s' { runtime_infos = s'.runtime_infos + 1 }

unfoldable pub set_app_refresh_cycle_override :
    Option Connector → ScreenType → ℕ → Bool → Bool → Rates → Rates
unfolding update_app_target_refresh_cycle
set_app_refresh_cycle_override c t fps change_refresh change_fps_cap s =
    update_app_target_refresh_cycle c (record s {
      app_refresh_cycle_override = set_at t fps s.app_refresh_cycle_override;
      change_refresh = set_at t change_refresh s.change_refresh;
      change_fps = set_at t change_fps_cap s.change_fps;
    })

abbrev pub limits : ℕ → Option Win → Bool
limits app none = false
limits app (some w) = window_should_limit_fps app w

-- The focus windows of the Xwayland servers that have a context, if they have any.
unfoldable pub user_has_any_game_open : ℕ → List (Option Win) → Bool
user_has_any_game_open app [] = false
user_has_any_game_open app (w ∷ ws) =
    let rest = user_has_any_game_open app ws in if limits app w then true else rest

-- What a frame sees: `app` is the app id of the current VR scene, `based_on_open` the global
-- g_bChangeDynamicRefreshBasedOnGameOpenRatherThanActive, and `mode_set` the output's rate in mHz
-- after the backend has set a mode, if that succeeds.
pub record Frame : Type 0 where
  pub connector : Connector
  pub app : ℕ
  pub based_on_open : Bool
  pub focus_windows : List (Option Win)
  pub focus_window : Option Win
  pub mode_set : Option ℕ

unfoldable pub should_refresh_switch : Frame → Bool
unfolding user_has_any_game_open
should_refresh_switch f =
    if f.connector.vrr_active
    then false
    else if f.based_on_open
    then user_has_any_game_open f.app f.focus_windows
    else limits f.app f.focus_window

abbrev pub last_or_zero : List ℕ → ℕ
last_or_zero [] = 0
last_or_zero (r ∷ []) = r
last_or_zero (r ∷ q ∷ rs) = last_or_zero (q ∷ rs)

unfoldable pub target_refresh_hz : Frame → Rates → ℕ
unfolding should_refresh_switch
target_refresh_hz f s =
    let hz = s.dynamic_refresh_rate f.connector.screen_type in
    if not (hz == 0) && should_refresh_switch f
    then hz
    else last_or_zero f.connector.valid_dynamic_refresh_rates

unfoldable pub current_output_hz : Rates → ℕ
unfolding convert_mhz_to_hz
current_output_hz s =
    if s.dynamic_refresh_hz == 0 then convert_mhz_to_hz s.output_refresh else s.dynamic_refresh_hz

-- HackTemporarySetDynamicRefresh of the DRM backend.
unfoldable pub set_dynamic_refresh : Option ℕ → ℕ → Rates → Rates
set_dynamic_refresh none hz s = s
set_dynamic_refresh (some mhz) hz s = record s { dynamic_refresh_hz = hz; output_refresh = mhz }

-- g_uDynamicRefreshDelay
abbrev pub dynamic_refresh_delay : ℕ
dynamic_refresh_delay = 600_000_000

unfoldable pub switch_refresh : Frame → ℕ → Rates → Rates
unfolding target_refresh_hz current_output_hz set_dynamic_refresh
switch_refresh f now s =
    let target = target_refresh_hz f s in
    if current_output_hz s == target
    then record s { equality_time = now }
    else if ltb (u64 (s.equality_time + dynamic_refresh_delay)) now
    then set_dynamic_refresh f.mode_set target s
    else s

abbrev pub is_empty : List ℕ → Bool
is_empty [] = true
is_empty (r ∷ rs) = false

-- The part of paint_all that chooses and switches the refresh rate, for a connector.
unfoldable pub refresh_frame : Frame → ℕ → Rates → Rates
unfolding update_app_target_refresh_cycle switch_refresh
refresh_frame f now s =
    let s' = update_app_target_refresh_cycle (some f.connector) s in
    if is_empty f.connector.valid_dynamic_refresh_rates then s' else switch_refresh f now s'
