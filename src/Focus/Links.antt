-- ===== src/Focus/Links.antt =====
-- When the loops over transient links in pick_primary_focus_and_override end (src/steamcompmgr.cpp).
use cloud_desktop.Prelude.{
  ℕ, zero, suc, ◌<◌, ◌≡◌, ◌≢◌, refl, ◌∙◌, Bool, true, false, ◌==◌, if◌then◌else◌, Option, none,
  some, List, [], ◌∷◌, All, arith, find_first, find_first-All, Bool-cases, Option-cases, inl, inr,
}
use cloud_desktop.Window.{Win, WinType, XwaylandWin, xwayland, xdg, is_xwayland}
use cloud_desktop.Window.Predicates.{win_maybe_a_dropdown}
use cloud_desktop.Focus.Pick.{
  Request, Picked, is_transient_for, link_id, pick_initial, takes_over, follow_transient, overrides,
  resolve_loop, resolve_transient_overrides, find_override_redirect, pick_xwayland, find_dropdown,
  pick_override, publish_focus, pick_with_focus, pick_primary_focus_and_override,
}
use cloud_desktop.Focus.Initial.{found_initial}
use cloud_desktop.Focus.Chosen.{found_override, found_dropdown}

-- `f` ranks below `bound`, and above every other window of the list that is transient for it.
abbrev pub RanksAbove : List Win → (Win → ℕ) → ℕ → Win → Type 0
RanksAbove ws rank bound f =
    (rank f < bound)
    × All (λ w. w.addr ≢ f.addr → is_transient_for (link_id f.type) w.type ≡ true → rank w < rank f)
        ws

-- The transient links of the list have no cycle: some rank falls along them.
abbrev pub Descends : List Win → (Win → ℕ) → ℕ → Type 0
Descends ws rank bound = All (RanksAbove ws rank bound) ws

takes_over-link :
    (f w : Win) (t : WinType)
    → f.type ≡ t
    → takes_over f w ≡ true
    → (w.addr ≢ f.addr) × (is_transient_for (link_id f.type) w.type ≡ true)
unfolding takes_over
takes_over-link f w (xdg x) e h = absurd (ground arith)
takes_over-link f w (xwayland x) e h = (λ k. ground arith, ground arith)

overrides-link :
    (maybe : Bool) (f : Win) (w : Win)
    → (overrides maybe f none w ≡ true
        → (w.addr ≢ f.addr) × (is_transient_for (link_id f.type) w.type ≡ true))
unfolding overrides
overrides-link maybe f w h = (λ e. ground arith, ground arith)

overrides-link_some :
    (maybe : Bool) (f o w : Win)
    → overrides maybe f (some o) w ≡ true
    → (w.addr ≢ o.addr) × (is_transient_for (link_id o.type) w.type ≡ true)
unfolding overrides
overrides-link_some maybe f o w h = (λ e. ground arith, ground arith)

module _ (ws : List Win) (rank : Win → ℕ) (bound : ℕ) (down : Descends ws rank bound) where
  follow_total :
      (fuel : ℕ) (focus : Win)
      → RanksAbove ws rank bound focus
      → rank focus < fuel
      → (f : Win) × (follow_transient fuel ws focus ≡ some f)
  unfolding follow_transient
  follow_total zero focus above h = elim h [ ]
  follow_total (suc fuel) focus above h = elim (Option-cases (find_first (takes_over focus) ws)) [
    | inl last ↦ (focus, rw (last, follow_transient))
    | inr (w, found) ↦
        let (falls, hit) = find_first-All _ _ ws above.1 found in
        let (apart, link) = takes_over-link focus w focus.type refl hit in
        rw (found, follow_transient)
          (follow_total fuel w (find_first-All _ _ ws down found).0
            (omega (arith, falls apart link)))
  ]

  resolve_some_total :
      (fuel : ℕ) (maybe : Bool) (focus o : Win)
      → RanksAbove ws rank bound o
      → rank o < fuel
      → (r : Option Win) × (resolve_loop fuel maybe ws focus (some o) ≡ some r)
  unfolding resolve_loop
  resolve_some_total zero maybe focus o above h = elim h [ ]
  resolve_some_total (suc fuel) maybe focus o above h =
      elim (Option-cases (find_first (overrides maybe focus (some o)) ws)) [
        | inl last ↦ (some o, rw (last, resolve_loop))
        | inr (w, found) ↦
            let (falls, hit) = find_first-All _ _ ws above.1 found in
            let (apart, link) = overrides-link_some maybe focus o w hit in
            rw (found, resolve_loop)
              (resolve_some_total fuel maybe focus w (find_first-All _ _ ws down found).0
                (omega (arith, falls apart link)))
      ]

  resolve_none_last :
      (n : ℕ) (maybe : Bool) (focus : Win)
      → find_first (overrides maybe focus none) ws ≡ none
      → resolve_loop (suc n) maybe ws focus none ≡ some none
  unfolding resolve_loop
  resolve_none_last n maybe focus e = rw (e, resolve_loop)

  resolve_none_step :
      (n : ℕ) (maybe : Bool) (focus w : Win)
      → find_first (overrides maybe focus none) ws ≡ some w
      → resolve_loop (suc n) maybe ws focus none ≡ resolve_loop n maybe ws focus (some w)
  unfolding resolve_loop
  resolve_none_step n maybe focus w e = rw (e, resolve_loop)

  resolve_total :
      (fuel : ℕ) (maybe : Bool) (focus : Win) (o : Option Win)
      → bound < fuel
      → ((w : Win) → o ≡ some w → RanksAbove ws rank bound w)
      → (r : Option Win) × (resolve_transient_overrides fuel maybe ws focus o ≡ some r)
  unfolding resolve_transient_overrides
  resolve_total fuel maybe focus o h k = elim (Bool-cases (is_xwayland focus.type)) [
    | inr other ↦ (o, rw other)
    | inl x ↦ rw x (go fuel o h k)
  ]
    where
      go :
          (n : ℕ) (q : Option Win)
          → bound < n
          → ((w : Win) → q ≡ some w → RanksAbove ws rank bound w)
          → (r : Option Win) × (resolve_loop n maybe ws focus q ≡ some r)
      go n (some w) lt below =
          resolve_some_total n maybe focus w (below w refl) (omega (arith, (below w refl).0))
      go zero none lt below = elim lt [ ]
      go (suc n) none lt below = elim (Option-cases (find_first (overrides maybe focus none) ws)) [
        | inl last ↦ (none, resolve_none_last n maybe focus last)
        | inr (w, found) ↦
            let (low, hit) = find_first-All _ _ ws down found in
            let (r, e) = resolve_some_total n maybe focus w low (omega (arith, low.0)) in
            (r, resolve_none_step n maybe focus w found ∙ e)
      ]

  -- The focus after the links.
  focus_total :
      (fuel : ℕ) (r : Request) (focus : Win)
      → bound < fuel
      → RanksAbove ws rank bound focus
      → (f : Win) × ((if r.focus_control_window == 0
            then follow_transient fuel ws focus
            else some focus)
          ≡ some f)
  focus_total fuel r focus h k = elim (Bool-cases (r.focus_control_window == 0)) [
    | inl free ↦ rw free (follow_total fuel focus k (omega (arith, k.0)))
    | inr held ↦ (focus, rw held)
  ]

  xwayland_total :
      (fuel : ℕ) (r : Request) (focus : Win)
      → bound < fuel
      → RanksAbove ws rank bound focus
      → (f : Win) × (o : Option Win) × (pick_xwayland fuel r ws focus ≡ some (f, o))
  unfolding pick_xwayland
  xwayland_total fuel r focus h k =
      let (f, followed) = focus_total fuel r focus h k in
      let (o, resolved) =
        resolve_total fuel false f (find_override_redirect r ws f) h
          (λ w e. found_override (RanksAbove ws rank bound) ws down r f w e) in
      (f, o, ground arith)

  override_total :
      (fuel : ℕ) (r : Request) (f : Win) (o : Option Win)
      → bound < fuel
      → (o' : Option Win) × (pick_override fuel r ws f o ≡ some o')
  unfolding pick_override
  override_total fuel r f (some o) h = (some o, refl)
  override_total fuel r f none h =
      resolve_total fuel true f (find_dropdown r ws f) h
        (λ w e. found_dropdown (RanksAbove ws rank bound) ws down r f w e)

  with_focus_made :
      (fuel : ℕ) (r : Request) (old : Option Win) (game : Bool) (focus f : Win) (o o' : Option Win)
      → (if is_xwayland focus.type then pick_xwayland fuel r ws focus else some (focus, none))
        ≡ some (f, o)
      → pick_override fuel r ws f o ≡ some o'
      → (p : Picked) × (pick_with_focus fuel r ws old game focus ≡ some p)
  unfolding pick_with_focus
  with_focus_made fuel r old game focus f o o' first second = (
    record {
      focus_window = (publish_focus r old f).0;
      override_window = o';
      outdated = (publish_focus r old f).1;
      local_game_focused = game;
    },
    ground arith,
  )

  with_focus_total :
      (fuel : ℕ) (r : Request) (old : Option Win) (game : Bool) (focus : Win)
      → bound < fuel
      → RanksAbove ws rank bound focus
      → (p : Picked) × (pick_with_focus fuel r ws old game focus ≡ some p)
  with_focus_total fuel r old game focus h k =
      let (f, o, first) = block in
      let (o', second) = override_total fuel r f o h in
      with_focus_made fuel r old game focus f o o' first second
    where
      block :
          (f : Win) × (o : Option Win) × ((if is_xwayland focus.type
              then pick_xwayland fuel r ws focus
              else some (focus, none))
            ≡ some (f, o))
      block = elim (Bool-cases (is_xwayland focus.type)) [
        | inl x ↦ rw x (xwayland_total fuel r focus h k)
        | inr other ↦ (focus, none, rw other)
      ]

  -- Without a cycle of transient links both loops end: with more fuel than the bound on the ranks
  -- the choice is made.
  pub pick_primary_focus_and_override_total :
      (fuel : ℕ) (r : Request) (old : Option Win)
      → bound < fuel
      → (p : Picked) × (pick_primary_focus_and_override fuel r ws old ≡ some p)
  unfolding pick_primary_focus_and_override
  pick_primary_focus_and_override_total fuel r old h = elim (Option-cases (pick_initial r ws).0) [
    | inl nothing ↦ (
      record {
        focus_window = old;
        override_window = none;
        outdated = none;
        local_game_focused = (pick_initial r ws).1;
      },
      rw (nothing, pick_primary_focus_and_override),
    )
    | inr (focus, chosen) ↦
        rw (chosen, pick_primary_focus_and_override)
          (with_focus_total fuel r old (pick_initial r ws).1 focus h
            (found_initial (RanksAbove ws rank bound) ws down r focus chosen))
  ]

-- In a list of two Xwayland windows at different addresses that are transient for each other, neither
-- of them a dropdown, the search along transient links ends for no amount of fuel.
follow_transient_cycle :
    (a b : Win) (xa xb : XwaylandWin)
    → a.type ≡ xwayland xa
    → b.type ≡ xwayland xb
    → a.addr ≢ b.addr
    → xa.transient_for ≡ xb.id
    → xb.transient_for ≡ xa.id
    → win_maybe_a_dropdown a ≡ false
    → win_maybe_a_dropdown b ≡ false
    → (fuel : ℕ)
    → (follow_transient fuel (a ∷ b ∷ []) a ≡ none) × (follow_transient fuel (a ∷ b ∷ []) b ≡ none)
unfolding follow_transient
follow_transient_cycle a b xa xb ta tb apart ab ba da db zero = (refl, refl)
follow_transient_cycle a b xa xb ta tb apart ab ba da db (suc fuel) =
    let (from_a, from_b) = follow_transient_cycle a b xa xb ta tb apart ab ba da db fuel in
    (rw (a_to_b, follow_transient) from_b, rw (b_to_a, follow_transient) from_a)
  where
    a_to_b : find_first (takes_over a) (a ∷ b ∷ []) ≡ some b
    a_to_b = unfold find_first takes_over in ground arith

    b_to_a : find_first (takes_over b) (a ∷ b ∷ []) ≡ some a
    b_to_a = unfold find_first takes_over in ground arith
