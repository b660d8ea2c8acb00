-- ===== src/Focus/Pick.antt =====
-- pick_primary_focus_and_override (src/steamcompmgr.cpp). The two `while ( true )` loops over
-- transient links take fuel, and `none` means that it ran out.
use cloud_desktop.Prelude.{
  ℕ, zero, suc, Bool, true, false, not, ◌&&◌, ◌||◌, ◌==◌, if◌then◌else◌, Option, none, some, List,
  [], ◌∷◌, find_first,
}
use cloud_desktop.Window.{
  Win, xwayland, xdg, WinType, is_xwayland, VirtualConnectorStrategy, single_application,
  get_virtual_connector_key,
}
use cloud_desktop.Window.Predicates.{win_is_override_redirect, win_maybe_a_dropdown}
use cloud_desktop.Window.Commits.{window_has_commits}
use cloud_desktop.Focus.Priority.{is_good_override_candidate, is_steam_controlled}

-- The arguments, less `out` and the windows.
pub record Request : Type 0 where
  pub focus_control_window : ℕ
  pub global_focus : Bool
  pub focus_control_app_ids : List ℕ
  pub virtual_focus_key : ℕ
  pub strategy : VirtualConnectorStrategy

-- What the call leaves behind: `out->focusWindow`, `out->overrideWindow`, the window whose
-- `outdatedInteractiveFocus` it sets, and the return value.
pub record Picked : Type 0 where
  pub focus_window : Option Win
  pub override_window : Option Win
  pub outdated : Option Win
  pub local_game_focused : Bool

abbrev pub is_empty {ℓ} : {A : Type ℓ} → List A → Bool
is_empty [] = true
is_empty (_ ∷ _) = false

abbrev pub is_single_application : VirtualConnectorStrategy → Bool
is_single_application single_application = true
is_single_application _ = false

unfoldable pub controlled_focus : Request → Bool
controlled_focus r =
    not (is_single_application r.strategy)
    || not (r.focus_control_window == 0)
    || not (is_empty r.focus_control_app_ids)

abbrev pub has_xwayland_id : ℕ → WinType → Bool
has_xwayland_id id (xwayland x) = x.id == id
has_xwayland_id id (xdg _) = false

-- `link` is the Window that an Xwayland window is transient for.
abbrev pub is_transient_for : ℕ → WinType → Bool
is_transient_for id (xwayland x) = x.transient_for == id
is_transient_for id (xdg _) = false

unfoldable pub find_by_app_id : List Win → List ℕ → Option Win
find_by_app_id ws [] = none
find_by_app_id ws (app ∷ apps) =
    let rest = find_by_app_id ws apps in
    elim (find_first (λ w. w.app_id == app) ws) [ some w ↦ some w | none ↦ rest ]

-- The Xwayland window that Steam asks for.
unfoldable pub find_control_window : Request → List Win → Option Win
find_control_window r ws =
    if r.focus_control_window == 0
    then none
    else find_first (λ w. has_xwayland_id r.focus_control_window w.type) ws

-- The window that Steam or the virtual connector asks for (the block that ends at `found:`).
unfoldable pub find_controlled : Request → List Win → Option Win
find_controlled r ws =
    if is_steam_controlled r.strategy
    then elim (find_control_window r ws) [
      | some w ↦ some w
      | none ↦ find_by_app_id ws r.focus_control_app_ids
    ]
    else find_first (λ w. get_virtual_connector_key w r.strategy == r.virtual_focus_key) ws

-- The first window of the list, unless an uncontrolled choice is ruled out.
unfoldable pub pick_first : Request → List Win → Option Win × Bool
pick_first r [] = (none, false)
pick_first r (w ∷ ws) =
    if not r.global_focus || not (controlled_focus r)
    then (some w, not (w.app_id == 0))
    else (none, false)

-- `focus` and `localGameFocused` before transient links are followed.
unfoldable pub pick_initial : Request → List Win → Option Win × Bool
unfolding pick_first
pick_initial r ws = elim (if controlled_focus r then find_controlled r ws else none) [
  | some w ↦ (some w, true)
  | none ↦ pick_first r ws
]

-- A window that takes the focus over from `focus`.
unfoldable pub takes_over : Win → Win → Bool
takes_over focus w = elim focus.type [
  | xdg _ ↦ false
  | xwayland x ↦
      not (w.addr == focus.addr) && is_transient_for x.id w.type && not (win_maybe_a_dropdown w)
]

-- The first `while ( true )`.
unfoldable pub follow_transient : ℕ → List Win → Win → Option Win
follow_transient zero ws focus = none
follow_transient (suc fuel) ws focus = elim (find_first (takes_over focus) ws) [
  | none ↦ some focus
  | some w ↦ follow_transient fuel ws w
]

abbrev pub is_dropdown : Bool → Win → Bool
is_dropdown true w = win_maybe_a_dropdown w
is_dropdown false w = win_is_override_redirect w

-- The Window that an override must be transient for, and the pointers that it must differ from.
abbrev pub link_id : WinType → ℕ
link_id (xwayland x) = x.id
link_id (xdg x) = x.id

unfoldable pub overrides : Bool → Win → Option Win → Win → Bool
overrides maybe focus none w =
    is_xwayland w.type
    && not (w.addr == focus.addr)
    && is_transient_for (link_id focus.type) w.type
    && is_dropdown maybe w
overrides maybe focus (some o) w =
    is_xwayland w.type
    && not (w.addr == o.addr)
    && not (w.addr == focus.addr)
    && is_transient_for (link_id o.type) w.type
    && is_dropdown maybe w

-- The loop of resolveTransientOverrides.
unfoldable pub resolve_loop : ℕ → Bool → List Win → Win → Option Win → Option (Option Win)
resolve_loop zero maybe ws focus override = none
resolve_loop (suc fuel) maybe ws focus override =
    elim (find_first (overrides maybe focus override) ws) [
      | none ↦ some override
      | some w ↦ resolve_loop fuel maybe ws focus (some w)
    ]

unfoldable pub resolve_transient_overrides :
    ℕ → Bool → List Win → Win → Option Win → Option (Option Win)
resolve_transient_overrides fuel maybe ws focus override =
    if is_xwayland focus.type then resolve_loop fuel maybe ws focus override else some override

-- The first override redirect window; with app ids in control it must be of the focused app.
unfoldable pub find_override_redirect : Request → List Win → Win → Option Win
find_override_redirect r ws focus =
    if not (is_empty r.focus_control_app_ids)
    then find_first
        (λ w.
          win_is_override_redirect w
          && is_good_override_candidate w focus
          && w.app_id == focus.app_id)
        ws
    else find_first (λ w. win_is_override_redirect w && is_good_override_candidate w focus) ws

-- The block for Xwayland windows: the focus after the links, and its override redirect window.
unfoldable pub pick_xwayland : ℕ → Request → List Win → Win → Option (Win × Option Win)
pick_xwayland fuel r ws focus =
    elim (if r.focus_control_window == 0 then follow_transient fuel ws focus else some focus) [
      | none ↦ none
      | some f ↦
          elim (resolve_transient_overrides fuel false ws f (find_override_redirect r ws f)) [
            | none ↦ none
            | some o ↦ some (f, o)
          ]
    ]

-- A dropdown that is not marked override redirect (the loops that end at `found2:`).
unfoldable pub find_fake_override : List Win → Win → List ℕ → Option Win
find_fake_override ws focus [] = none
find_fake_override ws focus (app ∷ apps) =
    let rest = find_fake_override ws focus apps in
    elim (find_first
      (λ w.
        w.app_id == app
        && win_maybe_a_dropdown w
        && is_good_override_candidate w focus
        && w.app_id == focus.app_id)
      ws) [ some w ↦ some w | none ↦ rest ]

unfoldable pub find_dropdown : Request → List Win → Win → Option Win
find_dropdown r ws focus =
    if controlled_focus r
    then find_fake_override ws focus r.focus_control_app_ids
    else find_first (λ w. win_maybe_a_dropdown w && is_good_override_candidate w focus) ws

unfoldable pub pick_override : ℕ → Request → List Win → Win → Option Win → Option (Option Win)
pick_override fuel r ws focus (some o) = some (some o)
pick_override fuel r ws focus none =
    resolve_transient_overrides fuel true ws focus (find_dropdown r ws focus)

-- What is written to `out->focusWindow`, which held `old`, and the window that becomes outdated.
unfoldable pub publish_focus : Request → Option Win → Win → Option Win × Option Win
publish_focus r old focus =
    let ready = window_has_commits focus in
    (
      (if ready || not r.global_focus then some focus else old),
      (if ready then none else some focus),
    )

unfoldable pub pick_with_focus : ℕ → Request → List Win → Option Win → Bool → Win → Option Picked
pick_with_focus fuel r ws old game focus =
    elim (if is_xwayland focus.type then pick_xwayland fuel r ws focus else some (focus, none)) [
      | none ↦ none
      | some (f, o) ↦ elim (pick_override fuel r ws f o) [
        | none ↦ none
        | some o' ↦ some (record {
          focus_window = (publish_focus r old f).0;
          override_window = o';
          outdated = (publish_focus r old f).1;
          local_game_focused = game;
        })
      ]
    ]

unfoldable pub pick_primary_focus_and_override : ℕ → Request → List Win → Option Win → Option Picked
pick_primary_focus_and_override fuel r ws old =
    let (initial, game) = pick_initial r ws in
    elim initial [
      | none ↦ some (record {
        focus_window = old;
        override_window = none;
        outdated = none;
        local_game_focused = game;
      })
      | some focus ↦ pick_with_focus fuel r ws old game focus
    ]
