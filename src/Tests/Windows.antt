-- ===== src/Tests/Windows.antt =====
-- The theorems on the focus at concrete inputs.
use mathlib.Core.List.{Perm}
use cloud_desktop.Prelude.{
  ◌≡◌, refl, true, false, not, some, none, List, [], ◌∷◌, ◌++◌, All, arith, find_first,
}
use cloud_desktop.Window.{Win, xwayland, steam_controlled, get_geometry}
use cloud_desktop.Window.Predicates.{
  win_has_game_id, win_is_disabled, win_is_useless, win_is_override_redirect,
  win_skip_and_not_fullscreen, win_maybe_a_dropdown, has_dropdown_style_ex, dropdown_by_hints,
  win_skip_taskbar_and_pager,
}
use cloud_desktop.Prelude.Int.{◌+ℤ◌}
use cloud_desktop.Window.Commits.{last_done, window_has_commits, window_last_done_commit_index}
use cloud_desktop.Focus.Priority.{
  is_good_override_candidate, is_focus_priority_greater, get_possible_focus_windows,
}
use cloud_desktop.Focus.Order.{
  lex_greater, priority_key, is_focus_priority_greater-lex, xdg-greater, xdg_key,
}
use cloud_desktop.Focus.Focusable.{IsFocusable}
use cloud_desktop.Focus.Ranking.{Ranked, get_possible_focus_windows-Ranked}
use cloud_desktop.Focus.Pick.{
  Request, Picked, pick_initial, controlled_focus, find_controlled, find_control_window,
  find_by_app_id, pick_with_focus, pick_xwayland, follow_transient, takes_over,
  resolve_transient_overrides, resolve_loop, overrides, find_override_redirect, find_dropdown,
  find_fake_override, pick_first, pick_override, publish_focus, pick_primary_focus_and_override,
}
use cloud_desktop.Focus.Links.{Descends, pick_primary_focus_and_override_total}
use cloud_desktop.Focus.Sound.{IsSound, pick_primary_focus_and_override-IsSound}
use cloud_desktop.Tests.Data.{window, plain, game, menu, menu_type, xdg_game, xdg_type}

is_focus_priority_greater-lex_example :
    is_focus_priority_greater game menu
    ≡ some (lex_greater (priority_key game plain) (priority_key menu menu_type))
is_focus_priority_greater-lex_example =
    is_focus_priority_greater-lex game menu plain menu_type refl refl

abbrev other_xdg : Win
other_xdg = record xdg_game { addr = 77; seq = 12 }

abbrev xdg_toolbox : Win
xdg_toolbox = record other_xdg { skip_taskbar = true; skip_pager = true; is_fullscreen = false }

xdg-greater_example :
    (is_focus_priority_greater xdg_game xdg_toolbox
      ≡ some (not (lex_greater (xdg_key xdg_toolbox) (xdg_key xdg_game))))
    × (xdg_key xdg_game ≡ xdg_key xdg_toolbox
        → (is_focus_priority_greater xdg_game xdg_toolbox ≡ some true)
          × (is_focus_priority_greater xdg_toolbox xdg_game ≡ some true))
    × (is_focus_priority_greater xdg_game xdg_game ≡ some true)
xdg-greater_example = xdg-greater xdg_game xdg_toolbox xdg_type xdg_type refl refl

-- Two windows that tie, and two that do not.
xdg_game-tie :
    (is_focus_priority_greater xdg_game other_xdg ≡ some true)
    × (is_focus_priority_greater other_xdg xdg_game ≡ some true)
    × (is_focus_priority_greater xdg_toolbox xdg_game ≡ some false)
unfolding is_focus_priority_greater win_has_game_id win_is_override_redirect win_is_useless
    win_maybe_a_dropdown win_is_disabled win_skip_and_not_fullscreen
xdg_game-tie = (refl, refl, refl)

abbrev windows : List Win
windows = menu ∷ game ∷ []

get_possible_focus_windows-Ranked_example :
    (us others : List Win) × (get_possible_focus_windows steam_controlled windows ≡ some us)
    × Ranked us
    × All (IsFocusable steam_controlled) us
    × All (λ w. ¬ (IsFocusable steam_controlled w)) others
    × Perm (us ++ others) windows
get_possible_focus_windows-Ranked_example =
    get_possible_focus_windows-Ranked steam_controlled windows
      ((menu_type, refl), ((plain, refl), tt))

abbrev request : Request
request = record {
  focus_control_window = 0;
  global_focus = false;
  focus_control_app_ids = 620 ∷ [];
  virtual_focus_key = 0;
  strategy = steam_controlled;
}

-- The game ranks above the menu, which is transient for it.
windows-Descends : Descends (game ∷ menu ∷ []) (λ w. w.addr) 8
windows-Descends = (
  (omega arith, ((λ n e. absurd (n refl)), ((λ n e. omega arith), tt))),
  ((omega arith, ((λ n e. absurd (ground arith)), ((λ n e. absurd (n refl)), tt))), tt),
)

pick_primary_focus_and_override_total_example :
    (p : Picked) × (pick_primary_focus_and_override 9 request (game ∷ menu ∷ []) none ≡ some p)
pick_primary_focus_and_override_total_example =
    pick_primary_focus_and_override_total (game ∷ menu ∷ []) (λ w. w.addr) 8 windows-Descends 9
      request none (omega arith)

abbrev menu_over_game : Picked
menu_over_game = record {
  focus_window = some game;
  override_window = some menu;
  outdated = some game;
  local_game_focused = true;
}

abbrev IsGame : Win → Type 0
IsGame w = w.app_id ≡ 620

pick_primary_focus_and_override-IsSound_example : IsSound IsGame request none menu_over_game
unfolding pick_primary_focus_and_override pick_initial controlled_focus find_controlled
    find_control_window find_by_app_id find_first pick_with_focus pick_xwayland follow_transient
    takes_over win_maybe_a_dropdown win_is_override_redirect win_is_useless
    resolve_transient_overrides resolve_loop overrides find_override_redirect find_dropdown
    find_fake_override pick_first pick_override publish_focus is_good_override_candidate ◌+ℤ◌
    last_done window_has_commits window_last_done_commit_index dropdown_by_hints
    has_dropdown_style_ex win_skip_and_not_fullscreen win_skip_taskbar_and_pager get_geometry
pick_primary_focus_and_override-IsSound_example =
    pick_primary_focus_and_override-IsSound IsGame (game ∷ menu ∷ []) (refl, (refl, tt)) 9 request
      none {p = menu_over_game} refl

-- A window that is transient for the dialog that is transient for it.
abbrev parent : Win
parent = window 7 (xwayland (record plain { transient_for = 102 }))
