-- ===== src/Focus/Focusable.antt =====
-- Which windows xwayland_ctx_t::GetPossibleFocusWindows takes (src/steamcompmgr.cpp).
use mathlib.Core.List.{Perm, perm_middle}
use mathlib.Core.List.Perm
use cloud_desktop.Prelude.{
  ◌≡◌, ◌≢◌, refl, true, false, if◌then◌else◌, List, [], ◌∷◌, All, arith, ◌⊎◌, not, ◌&&◌, ◌||◌, ◌++◌,
  inl, inr, Bool-cases,
}
use cloud_desktop.Window.{
  Win, XwaylandWin, xwayland, xdg, WinType, VirtualConnectorStrategy, steam_controlled,
}
use cloud_desktop.Window.Predicates.{win_has_game_id, window_is_steam}
use cloud_desktop.Focus.Priority.{is_steam_controlled, may_take_focus, possible_windows}

pub All-possible {ℓ} :
    (P : Win → Type ℓ) (strategy : VirtualConnectorStrategy) (ws : List Win)
    → All P ws
    → All (λ w. P w × (may_take_focus strategy w ≡ true)) (possible_windows strategy ws)
unfolding possible_windows
All-possible P strategy [] h = tt
All-possible P strategy (w ∷ ws) h = elim (Bool-cases (may_take_focus strategy w)) [
  | inl may ↦ rw may ((h.0, may), All-possible P strategy ws h.1)
  | inr not' ↦ rw not' (All-possible P strategy ws h.1)
]

-- A window that may take the focus: no tray icon, overlay, overlay target or streamed video; an
-- Xwayland window that is viewable, takes input and output, and is visible unless it is the
-- streaming client; and with Steam in control a game, Steam itself or the streaming client.
pub record IsFocusable (strategy : VirtualConnectorStrategy) (w : Win) : Type 0 where
  pub no_tray : w.is_sys_tray_icon ≡ false
  pub no_overlay : w.is_overlay ≡ false
  pub no_external : w.is_external_overlay ≡ false
  pub no_target : w.has_target_vr_overlay ≡ false
  pub no_video : w.is_steam_streaming_client_video ≡ false
  pub x : XwaylandWin
  pub on_xwayland : w.type ≡ xwayland x
  pub viewable : x.is_viewable ≡ true
  pub input_output : x.is_input_output ≡ true
  pub visible : (w.opacity ≢ 0) ⊎ (w.is_steam_streaming_client ≡ true)
  pub steam :
      strategy ≡ steam_controlled
      → (win_has_game_id w ≡ true)
        ⊎ (window_is_steam w ≡ true)
        ⊎ (w.is_steam_streaming_client ≡ true)

pub may_take_focus-IsFocusable :
    (strategy : VirtualConnectorStrategy) (w : Win) (t : WinType)
    → w.type ≡ t
    → may_take_focus strategy w ≡ true
    → IsFocusable strategy w
unfolding may_take_focus
may_take_focus-IsFocusable strategy w (xdg x) e h = absurd (ground arith)
may_take_focus-IsFocusable strategy w (xwayland x) e h = record {
  no_tray = ground arith;
  no_overlay = ground arith;
  no_external = ground arith;
  no_target = ground arith;
  no_video = ground arith;
  x = x;
  on_xwayland = e;
  viewable = ground arith;
  input_output = ground arith;
  visible = ground arith;
  steam = ground arith;
}

is_steam_controlled_cases :
    (strategy : VirtualConnectorStrategy)
    → (strategy ≡ steam_controlled) ⊎ (is_steam_controlled strategy ≡ false)
is_steam_controlled_cases strategy = ground arith

IsFocusable-may_take_focus :
    (strategy : VirtualConnectorStrategy) (w : Win)
    → IsFocusable strategy w
    → may_take_focus strategy w ≡ true
unfolding may_take_focus
IsFocusable-may_take_focus strategy w f =
    let allowed : (is_steam_controlled strategy
          && not (win_has_game_id w || window_is_steam w || w.is_steam_streaming_client))
        ≡ false =
      elim (is_steam_controlled_cases strategy) [
        | inl controlled ↦ ground (arith, f.steam controlled)
        | inr free ↦ rw free refl
      ] in
    ground (
      arith, f.no_tray, f.no_overlay, f.no_external, f.no_target, f.no_video, allowed,
      f.on_xwayland, f.viewable, f.input_output, f.visible,
    )

-- What the loop leaves out.
pub skipped_windows : VirtualConnectorStrategy → List Win → List Win
skipped_windows strategy [] = []
skipped_windows strategy (w ∷ ws) =
    let rest = skipped_windows strategy ws in if may_take_focus strategy w then rest else w ∷ rest

pub All-skipped_windows :
    (strategy : VirtualConnectorStrategy) (ws : List Win)
    → All (λ w. ¬ (IsFocusable strategy w)) (skipped_windows strategy ws)
unfolding skipped_windows
All-skipped_windows strategy [] = tt
All-skipped_windows strategy (w ∷ ws) = elim (Bool-cases (may_take_focus strategy w)) [
  | inl may ↦ rw may (All-skipped_windows strategy ws)
  | inr may_not ↦ rw may_not (
    λ f. let may = IsFocusable-may_take_focus strategy w f in cc,
    All-skipped_windows strategy ws,
  )
]

pub possible_windows-perm :
    (strategy : VirtualConnectorStrategy) (ws : List Win)
    → Perm (possible_windows strategy ws ++ skipped_windows strategy ws) ws
unfolding possible_windows skipped_windows
possible_windows-perm strategy [] = Perm.refl []
possible_windows-perm strategy (w ∷ ws) = elim (Bool-cases (may_take_focus strategy w)) [
  | inl may ↦ rw may (Perm.cons w (possible_windows-perm strategy ws))
  | inr may_not ↦ rw may_not (
      Perm.trans (perm_middle (possible_windows strategy ws) (skipped_windows strategy ws))
        (Perm.cons w (possible_windows-perm strategy ws)))
]
