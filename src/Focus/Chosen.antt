-- ===== src/Focus/Chosen.antt =====
-- What pick_primary_focus_and_override (src/steamcompmgr.cpp) chooses.
use cloud_desktop.Prelude.{
  ℕ, zero, suc, ◌≡◌, ◌≢◌, refl, Bool, true, false, ◌==◌, if◌then◌else◌, Option, none, some, List,
  [], ◌∷◌, All, arith, find_first, find_first-All, Bool-cases, Option-cases, ◌⊎◌, inl, inr, subst,
  sym, ◌∙◌,
}
use cloud_desktop.Window.{Win, is_xwayland}
use cloud_desktop.Window.Commits.{window_has_commits}
use cloud_desktop.Focus.Priority.{is_good_override_candidate}
use cloud_desktop.Focus.Initial.{found_initial}
use cloud_desktop.Focus.Pick.{
  Request, Picked, pick_initial, takes_over, follow_transient, overrides, resolve_loop,
  resolve_transient_overrides, find_override_redirect, pick_xwayland, find_fake_override,
  find_dropdown, pick_override, publish_focus, pick_with_focus, pick_primary_focus_and_override,
}

candidate_apart : (w focus : Win) → is_good_override_candidate w focus ≡ true → w.addr ≢ focus.addr
unfolding is_good_override_candidate
candidate_apart w focus h e = ground arith

overrides_apart :
    (maybe : Bool) (focus : Win) (override : Option Win) (w : Win)
    → overrides maybe focus override w ≡ true
    → w.addr ≢ focus.addr
unfolding overrides
overrides_apart maybe focus none w h e = ground arith
overrides_apart maybe focus (some o) w h e = ground arith

-- What a call leaves behind, `old` being the window that `out->focusWindow` held.
pub record Chosen {ℓ} (P : Win → Type ℓ) (r : Request) (old : Option Win) (p : Picked)
    : Type ℓ where
  pub focus_from : (f : Win) → p.focus_window ≡ some f → (old ≡ some f) ⊎ P f
  pub override_from : (o : Win) → p.override_window ≡ some o → P o
  pub apart :
      r.global_focus ≡ false
      → (f o : Win) → p.focus_window ≡ some f
      → p.override_window ≡ some o
      → o.addr ≢ f.addr
  pub outdated_from : (f : Win) → p.outdated ≡ some f → P f
  pub outdated_has_none : (f : Win) → p.outdated ≡ some f → window_has_commits f ≡ false
  pub held_back : (f : Win) → p.outdated ≡ some f → r.global_focus ≡ true → p.focus_window ≡ old

module _ {ℓ} (P : Win → Type ℓ) (ws : List Win) (all : All P ws) where
  -- An optional window that satisfies `P` and is not the focused one.
  abbrev Good : Win → Option Win → Type ℓ
  Good focus none = Unit
  Good focus (some o) = P o × (o.addr ≢ focus.addr)

  Good-find :
      (focus : Win) (test : Win → Bool)
      → ((w : Win) → test w ≡ true → w.addr ≢ focus.addr)
      → Good focus (find_first test ws)
  Good-find focus test apart = go (find_first test ws) refl
    where
      go : (r : Option Win) → find_first test ws ≡ r → Good focus r
      go none e = tt
      go (some w) e = let (p, t) = find_first-All P test ws all e in (p, apart w t)

  Good-if :
      (focus : Win) (b : Bool) (x y : Option Win)
      → Good focus x
      → Good focus y
      → Good focus (if b then x else y)
  Good-if focus true x y gx gy = gx
  Good-if focus false x y gx gy = gy

  Good-override_redirect :
      (r : Request) (focus : Win) → Good focus (find_override_redirect r ws focus)
  unfolding find_override_redirect
  Good-override_redirect r focus =
      Good-if focus _ _ _ (Good-find focus _ (λ w t. candidate_apart w focus (ground arith)))
        (Good-find focus _ (λ w t. candidate_apart w focus (ground arith)))

  Good-fake : (focus : Win) (apps : List ℕ) → Good focus (find_fake_override ws focus apps)
  unfolding find_fake_override
  Good-fake focus [] = tt
  Good-fake focus (app ∷ apps) =
      go _ (Good-fake focus apps)
        (Good-find focus _ (λ w t. candidate_apart w focus (ground arith)))
    where
      go :
          (o : Option Win)
          → Good focus (find_fake_override ws focus apps)
          → Good focus o
          → Good focus (elim o [ some w ↦ some w | none ↦ find_fake_override ws focus apps ])
      go none rest g = rest
      go (some w) rest g = g

  Good-dropdown : (r : Request) (focus : Win) → Good focus (find_dropdown r ws focus)
  unfolding find_dropdown
  Good-dropdown r focus =
      Good-if focus _ _ _ (Good-fake focus r.focus_control_app_ids)
        (Good-find focus _ (λ w t. candidate_apart w focus (ground arith)))

  Good-loop :
      (fuel : ℕ) (maybe : Bool) (focus : Win) (override : Option Win) {r : Option Win}
      → Good focus override
      → resolve_loop fuel maybe ws focus override ≡ some r
      → Good focus r
  unfolding resolve_loop
  Good-loop zero maybe focus override g h = absurd (ground arith)
  Good-loop (suc fuel) maybe focus override {r = r} g h =
      elim (Option-cases (find_first (overrides maybe focus override) ws)) [
        | inl last ↦ let same : override ≡ r = ground arith in subst (Good focus) same g
        | inr (w, found) ↦
            let (p, t) = find_first-All P _ ws all found in
            Good-loop fuel maybe focus (some w) (p, overrides_apart maybe focus override w t)
              (ground arith)
      ]

  Good-resolve :
      (fuel : ℕ) (maybe : Bool) (focus : Win) (override : Option Win) {r : Option Win}
      → Good focus override
      → resolve_transient_overrides fuel maybe ws focus override ≡ some r
      → Good focus r
  unfolding resolve_transient_overrides
  Good-resolve fuel maybe focus override {r = r} g h = elim (Bool-cases (is_xwayland focus.type)) [
    | inl x ↦ Good-loop fuel maybe focus override g (ground arith)
    | inr x ↦ let same : override ≡ r = ground arith in subst (Good focus) same g
  ]

  pub follow-P :
      (fuel : ℕ) (focus : Win) {f : Win} → P focus → follow_transient fuel ws focus ≡ some f → P f
  unfolding follow_transient
  follow-P zero focus p h = absurd (ground arith)
  follow-P (suc fuel) focus {f = f} p h = elim (Option-cases (find_first (takes_over focus) ws)) [
    | inl last ↦ let same : focus ≡ f = ground arith in subst P same p
    | inr (w, found) ↦ follow-P fuel w (find_first-All P _ ws all found).0 (ground arith)
  ]

  -- The focus and the override of the Xwayland block.
  xwayland_sound :
      (fuel : ℕ) (r : Request) (focus f : Win) (o : Option Win)
      → P focus
      → pick_xwayland fuel r ws focus ≡ some (f, o)
      → P f × Good f o
  unfolding pick_xwayland
  xwayland_sound fuel r focus f o p h =
      elim (Option-cases
        (if r.focus_control_window == 0 then follow_transient fuel ws focus else some focus)) [
          | inl stuck ↦ absurd (ground arith)
          | inr (g, followed) ↦
              elim (Option-cases
                (resolve_transient_overrides fuel false ws g (find_override_redirect r ws g))) [
                  | inl stuck ↦ absurd (ground arith)
                  | inr (q, resolved) ↦
                      let same : g ≡ f = ground arith in
                      let same' : q ≡ o = ground arith in
                      subst (λ v. P v × Good v o) same
                        (
                          followed_P g followed,
                          subst (Good g) same'
                              (Good-resolve fuel false g _ (Good-override_redirect r g) resolved),
                        )
                ]
        ]
    where
      followed_P :
          (g : Win)
          → (if r.focus_control_window == 0 then follow_transient fuel ws focus else some focus)
            ≡ some g
          → P g
      followed_P g e = elim (Bool-cases (r.focus_control_window == 0)) [
        | inl free ↦ follow-P fuel focus p (ground arith)
        | inr held ↦ let same : focus ≡ g = ground arith in subst P same p
      ]

  override_sound :
      (fuel : ℕ) (r : Request) (f : Win) (o : Option Win) {o' : Option Win}
      → Good f o
      → pick_override fuel r ws f o ≡ some o'
      → Good f o'
  unfolding pick_override
  override_sound fuel r f none g h = Good-resolve fuel true f _ (Good-dropdown r f) h
  override_sound fuel r f (some o) {o' = o'} g h =
      let same : some o ≡ o' = ground arith in subst (Good f) same g

  -- The window that gets the focus, with what is published of it.
  with_focus_sound :
      (fuel : ℕ) (r : Request) (old : Option Win) (game : Bool) (focus : Win) {p : Picked}
      → P focus
      → pick_with_focus fuel r ws old game focus ≡ some p
      → (f : Win) × P f
        × Good f p.override_window
        × (p.focus_window ≡ (publish_focus r old f).0)
        × (p.outdated ≡ (publish_focus r old f).1)
        × (p.local_game_focused ≡ game)
  unfolding pick_with_focus
  with_focus_sound fuel r old game focus {p = p} hf h =
      elim (Option-cases
        (if is_xwayland focus.type then pick_xwayland fuel r ws focus else some (focus, none))) [
          | inl stuck ↦ absurd (ground arith)
          | inr ((f, o), first) ↦ elim (Option-cases (pick_override fuel r ws f o)) [
            | inl stuck ↦ absurd (ground arith)
            | inr (o', second) ↦
                let (pf, good) = block f o first in
                let same : o' ≡ p.override_window = ground arith in
                (
                  f,
                  pf,
                  subst (Good f) same (override_sound fuel r f o good second),
                  ground arith,
                  ground arith,
                  ground arith,
                )
          ]
        ]
    where
      block :
          (f : Win) (o : Option Win)
          → (if is_xwayland focus.type then pick_xwayland fuel r ws focus else some (focus, none))
            ≡ some (f, o)
          → P f × Good f o
      block f o e = elim (Bool-cases (is_xwayland focus.type)) [
        | inl x ↦ xwayland_sound fuel r focus f o hf (ground arith)
        | inr x ↦
            let same : focus ≡ f = ground arith in
            let same' : none ≡ o = ground arith in (subst P same hf, subst (Good f) same' tt)
      ]

  Good-holds : (f o : Win) {q : Option Win} → Good f q → q ≡ some o → P o × (o.addr ≢ f.addr)
  Good-holds f o g e = subst (Good f) e g

  pub found_override :
      (r : Request) (focus o : Win) → find_override_redirect r ws focus ≡ some o → P o
  found_override r focus o e = (Good-holds focus o (Good-override_redirect r focus) e).0

  pub found_dropdown : (r : Request) (focus o : Win) → find_dropdown r ws focus ≡ some o → P o
  found_dropdown r focus o e = (Good-holds focus o (Good-dropdown r focus) e).0

  published_sound :
      (r : Request) (old : Option Win) (f : Win) (p : Picked)
      → P f
      → Good f p.override_window
      → p.focus_window ≡ (publish_focus r old f).0
      → p.outdated ≡ (publish_focus r old f).1
      → Chosen P r old p
  unfolding publish_focus
  published_sound r old f p pf good ef eo = record {
    focus_from =
        λ g e. elim (from g (sym ef ∙ e)) [ inl same ↦ inr (subst P same pf) | inr was ↦ inl was ];
    override_from = λ o e. (Good-holds f o good e).0;
    apart = λ local g o e k.
        let same : f ≡ g = ground arith in
        subst (λ v. o.addr ≢ v.addr) same (Good-holds f o good k).1;
    outdated_from = λ g e. let same : f ≡ g = ground arith in subst P same pf;
    outdated_has_none = λ g e. ground arith;
    held_back = λ g e global. ground arith;
  }
    where
      from : (g : Win) → (publish_focus r old f).0 ≡ some g → (f ≡ g) ⊎ (old ≡ some g)
      from g e = ground arith

  pub pick-Chosen :
      (fuel : ℕ) (r : Request) (old : Option Win) {p : Picked}
      → pick_primary_focus_and_override fuel r ws old ≡ some p
      → Chosen P r old p
  unfolding pick_primary_focus_and_override
  pick-Chosen fuel r old {p = p} h = elim (Option-cases (pick_initial r ws).0) [
    | inl nothing ↦ record {
      focus_from = λ f e. inl (ground arith);
      override_from = λ o e. absurd (ground arith);
      apart = λ local f o e k. absurd (ground arith);
      outdated_from = λ f e. absurd (ground arith);
      outdated_has_none = λ f e. absurd (ground arith);
      held_back = λ f e global. ground arith;
    }
    | inr (focus, chosen) ↦
        let (f, pf, good, ef, eo, eg) =
          with_focus_sound fuel r old (pick_initial r ws).1 focus {p = p}
            (found_initial P ws all r focus chosen) (ground arith) in
        published_sound r old f p pf good ef eo
  ]
