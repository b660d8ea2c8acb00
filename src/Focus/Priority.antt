-- ===== src/Focus/Priority.antt =====
-- is_focus_priority_greater and is_good_override_candidate (src/steamcompmgr.cpp), and the ranked
-- list of xwayland_ctx_t::GetPossibleFocusWindows.
use cloud_desktop.Prelude.{
  ℕ, Bool, true, false, not, ◌&&◌, ◌||◌, ◌==◌, ltb, if◌then◌else◌, ◌=ᵇ◌, Option, none, some, List,
  [], ◌∷◌,
}
use cloud_desktop.Prelude.Int.{pos, ltb_ℤ, ◌+ℤ◌}
use cloud_desktop.Window.{
  Win, XwaylandWin, xwayland, xdg, get_geometry, VirtualConnectorStrategy, steam_controlled,
}
use cloud_desktop.Window.Predicates.{
  win_has_game_id, win_is_useless, win_is_override_redirect, win_skip_and_not_fullscreen,
  win_maybe_a_dropdown, win_is_disabled, window_is_steam,
}

-- if ( x != y ) return x;
abbrev pub prefer : Bool → Bool → Option Bool → Option Bool
prefer x y rest = if x =ᵇ y then rest else some x

-- if ( x != y ) return !x;
abbrev pub avoid : Bool → Bool → Option Bool → Option Bool
avoid x y rest = if x =ᵇ y then rest else some (not x)

-- if ( test && x != y ) return x > y;
abbrev pub later_if : Bool → ℕ → ℕ → Bool → Bool
later_if test x y rest = if test && not (x == y) then ltb y x else rest

-- The criteria that only Xwayland windows have.
unfoldable pub greater_xwayland : Win → XwaylandWin → Win → XwaylandWin → Bool
greater_xwayland a xa b xb =
    if (win_maybe_a_dropdown a && win_maybe_a_dropdown b)
      && not ((xa.transient_for == 0) =ᵇ (xb.transient_for == 0))
    then xa.transient_for == 0
    else later_if (win_has_game_id a) xa.map_sequence xb.map_sequence
        (later_if (win_has_game_id a) xa.damage_sequence xb.damage_sequence false)

-- Where `a` is an Xwayland window and `b` is not, `b->xwayland()` throws when it is reached.
unfoldable pub greater_by_type : Win → Win → Option Bool
unfolding greater_xwayland
greater_by_type a b = elim a.type [
  | xdg _ ↦ some true
  | xwayland xa ↦ elim b.type [
    | xdg _ ↦
        if (win_maybe_a_dropdown a && win_maybe_a_dropdown b) || win_has_game_id a
        then none
        else some false
    | xwayland xb ↦ some (greater_xwayland a xa b xb)
  ]
]

-- `none` is the exception std::bad_variant_access.
unfoldable pub is_focus_priority_greater : Win → Win → Option Bool
unfolding greater_by_type
is_focus_priority_greater a b = prefer (win_has_game_id a) (win_has_game_id b) (
    avoid (win_is_override_redirect a) (win_is_override_redirect b) (
      avoid (win_is_useless a) (win_is_useless b) (
        avoid (win_maybe_a_dropdown a) (win_maybe_a_dropdown b) (
          avoid (win_is_disabled a) (win_is_disabled b) (
            avoid (win_skip_and_not_fullscreen a) (win_skip_and_not_fullscreen b) (
              if (win_maybe_a_dropdown a && win_maybe_a_dropdown b)
                && not (a.is_dialog =ᵇ b.is_dialog)
              then some (not a.is_dialog)
              else greater_by_type a b))))))

-- `focus` is not null. The int32_t sums do not overflow.
unfoldable pub is_good_override_candidate : Win → Win → Bool
unfolding get_geometry ◌+ℤ◌
is_good_override_candidate override focus =
    let rect = get_geometry override in
    not (override.addr == focus.addr)
    && ltb_ℤ (pos 0) (rect.x +ℤ rect.width)
    && ltb_ℤ (pos 0) (rect.y +ℤ rect.height)

abbrev pub is_steam_controlled : VirtualConnectorStrategy → Bool
is_steam_controlled steam_controlled = true
is_steam_controlled _ = false

-- TRANSLUCENT is 0.
unfoldable pub may_take_focus : VirtualConnectorStrategy → Win → Bool
may_take_focus strategy w =
    if w.is_sys_tray_icon || w.is_overlay || w.is_external_overlay
    then false
    else if w.has_target_vr_overlay
    then false
    else if w.is_steam_streaming_client_video
    then false
    else if is_steam_controlled strategy
        && not (win_has_game_id w || window_is_steam w || w.is_steam_streaming_client)
    then false
    else elim w.type [
      | xdg _ ↦ false
      | xwayland x ↦
          x.is_viewable
          && x.is_input_output
          && (not (w.opacity == 0) || w.is_steam_streaming_client)
    ]

-- The loop over the context's list.
unfoldable pub possible_windows : VirtualConnectorStrategy → List Win → List Win
unfolding may_take_focus
possible_windows strategy [] = []
possible_windows strategy (w ∷ ws) =
    let rest = possible_windows strategy ws in if may_take_focus strategy w then w ∷ rest else rest

-- std::stable_sort by is_focus_priority_greater, as a stable insertion: an element goes before the
-- first of those behind it that does not outrank it. An exception ends the sort.
unfoldable pub insert_ranked : Win → List Win → Option (List Win)
insert_ranked w [] = some (w ∷ [])
insert_ranked w (v ∷ vs) =
    let rest = insert_ranked w vs in
    elim (is_focus_priority_greater v w) [
      | none ↦ none
      | some false ↦ some (w ∷ v ∷ vs)
      | some true ↦ elim rest [ none ↦ none | some us ↦ some (v ∷ us) ]
    ]

unfoldable pub stable_sort : List Win → Option (List Win)
stable_sort [] = some []
stable_sort (w ∷ ws) = elim (stable_sort ws) [ none ↦ none | some us ↦ insert_ranked w us ]

unfoldable pub get_possible_focus_windows : VirtualConnectorStrategy → List Win → Option (List Win)
get_possible_focus_windows strategy ws = stable_sort (possible_windows strategy ws)
