-- ===== src/Latch/Vblank.antt =====
-- steamcompmgr_should_vblank_window, steamcompmgr_latch_frame_done and
-- steamcompmgr_flush_frame_done (src/steamcompmgr.cpp).
use cloud_desktop.Prelude.{
  ℕ, ◌+◌, ◌-◌, ◌/◌, ◌%◌, min, Bool, true, false, not, ◌&&◌, ◌==◌, ltb, if◌then◌else◌, Option, none,
  some, List, [], ◌∷◌, u64,
}
use cloud_desktop.Refresh.{convert_mhz_to_hz}
use cloud_desktop.Window.{Win}
use cloud_desktop.Window.Predicates.{window_should_limit_fps}
use cloud_desktop.Latch.State.{Compositor}

-- ConvertmHzToHz of the nested or the output refresh rate.
unfoldable pub refresh_hz : Compositor → ℕ
unfolding convert_mhz_to_hz
refresh_hz c =
    convert_mhz_to_hz (if c.nested_refresh == 0 then c.output_refresh else c.nested_refresh)

-- std::abs( a - b ) < 2
abbrev pub close_enough : ℕ → ℕ → Bool
close_enough a b = ltb (a - b + (b - a)) 2

-- With VRR: too early if the window's latch time plus the limited cycle is not near yet. The
-- earliest such schedule is remembered.
unfoldable pub should_vblank_vrr : Compositor → Bool → Option ℕ → ℕ → Bool × Compositor
should_vblank_vrr c limit none now = (true, c)
should_vblank_vrr c limit (some latch_time) now =
    let schedule = u64 (latch_time + c.limited_app_refresh_cycle) in
    if not (c.target_fps == 0)
      && limit
      && not (close_enough c.target_fps (refresh_hz c))
      && ltb (u64 (now + 200_000)) schedule
    then (
      false,
      record c {
        lowest_fps_limit_schedule_vrr = elim c.lowest_fps_limit_schedule_vrr [
          | none ↦ some schedule
          | some s ↦ some (min s schedule)
        ];
      },
    )
    else (true, c)

-- Without: every n-th vblank, where n is the refresh rate over the target.
unfoldable pub should_vblank_fixed : Compositor → Bool → ℕ → Bool
should_vblank_fixed c limit vblank_idx =
    if not (c.target_fps == 0) && limit && ltb c.target_fps (refresh_hz c)
    then vblank_idx % (refresh_hz c / c.target_fps) == 0
    else true

-- The window is given by its last_commit_first_latch_time, or is absent.
unfoldable pub should_vblank_window : Compositor → Bool → ℕ → Option ℕ → ℕ → Bool × Compositor
unfolding should_vblank_vrr should_vblank_fixed
should_vblank_window c limit vblank_idx latch_time now =
    if c.has_connector && c.vrr_active
    then should_vblank_vrr c limit latch_time now
    else (should_vblank_fixed c limit vblank_idx, c)

-- `app` is the app id of the current VR scene.
unfoldable pub latch_frame_done : Compositor → ℕ → Win → ℕ → ℕ → Win × Compositor
latch_frame_done c app w vblank_idx now =
    let (should, c') =
      should_vblank_window c (window_should_limit_fps app w) vblank_idx
        (some w.last_commit_first_latch_time) now in
    ((if should then record w { unlocked_for_frame_callback = true } else w), c')

-- The surfaces that a frame callback is sent to; surfaces are given by address, if there are any.
unfoldable pub frame_done_targets : Option ℕ → ℕ → List ℕ
frame_done_targets none current = current ∷ []
frame_done_targets (some main) current = if main == current then main ∷ [] else main ∷ current ∷ []

unfoldable pub flush_frame_done : Win → Option ℕ → Option ℕ → ℕ → Win × List ℕ
unfolding frame_done_targets
flush_frame_done w main none now = (w, [])
flush_frame_done w main (some current) now =
    if w.unlocked_for_frame_callback && w.received_done_commit
    then (
      record w {
        unlocked_for_frame_callback = false;
        received_done_commit = false;
        last_commit_first_latch_time = now;
      },
      frame_done_targets main current,
    )
    else (w, [])
