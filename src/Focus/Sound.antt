-- ===== src/Focus/Sound.antt =====
-- What pick_primary_focus_and_override (src/steamcompmgr.cpp) may leave behind.
use cloud_desktop.Prelude.{
  ◌≡◌, ◌≢◌, refl, ◌⊎◌, inl, inr, true, false, ℕ, Option, none, some, List, All, Bool-cases,
}
use cloud_desktop.Window.{Win}
use cloud_desktop.Window.Commits.{window_has_commits}
use cloud_desktop.Focus.Pick.{Request, Picked, pick_primary_focus_and_override}
use cloud_desktop.Focus.Chosen.{Chosen, pick-Chosen}

-- What is there satisfies `P`.
abbrev pub OnSome {ℓ} : (Win → Type ℓ) → Option Win → Type ℓ
OnSome P none = Unit
OnSome P (some w) = P w

on_some {ℓ} : (P : Win → Type ℓ) (o : Option Win) → ((w : Win) → o ≡ some w → P w) → OnSome P o
on_some P none h = tt
on_some P (some w) h = h w refl

-- What a call leaves behind, `old` being the window that `out->focusWindow` held.
pub record IsSound {ℓ} (P : Win → Type ℓ) (r : Request) (old : Option Win) (p : Picked)
    : Type ℓ where
  pub focus_from : OnSome (λ f. (old ≡ some f) ⊎ P f) p.focus_window
  pub override_from : OnSome P p.override_window
  pub apart :
      (r.global_focus ≡ true)
      ⊎ OnSome (λ f. OnSome (λ o. o.addr ≢ f.addr) p.override_window) p.focus_window
  pub outdated_from : OnSome (λ f. P f × (window_has_commits f ≡ false)) p.outdated
  pub held_back : OnSome (λ f. (r.global_focus ≡ false) ⊎ (p.focus_window ≡ old)) p.outdated

IsSound-of {ℓ} :
    (P : Win → Type ℓ) (r : Request) (old : Option Win) (p : Picked)
    → Chosen P r old p
    → IsSound P r old p
IsSound-of P r old p c = record {
  focus_from = on_some _ p.focus_window (λ f e. c.focus_from f e);
  override_from = on_some _ p.override_window (λ o e. c.override_from o e);
  apart = elim (Bool-cases r.global_focus) [
    | inl global ↦ inl global
    | inr local ↦ inr (
        on_some _ p.focus_window
          (λ f e. on_some _ p.override_window (λ o k. c.apart local f o e k)))
  ];
  outdated_from = on_some _ p.outdated (λ f e. (c.outdated_from f e, c.outdated_has_none f e));
  held_back = on_some _ p.outdated (λ f e. elim (Bool-cases r.global_focus) [
    | inl global ↦ inr (c.held_back f e global)
    | inr local ↦ inl local
  ]);
}

module _ {ℓ} (P : Win → Type ℓ) (ws : List Win) (all : All P ws) where
  -- Whatever holds of every window of the list holds of the override window, of the window that
  -- gets the focus (unless that is the one that had it) and of the one that becomes outdated. Where
  -- the focus is not the global one, the override window is another one than the focused. Only a
  -- window without a done commit becomes outdated, and the global focus stays where it was then.
  pub pick_primary_focus_and_override-IsSound :
      (fuel : ℕ) (r : Request) (old : Option Win) {p : Picked}
      → pick_primary_focus_and_override fuel r ws old ≡ some p
      → IsSound P r old p
  pick_primary_focus_and_override-IsSound fuel r old {p = p} h =
      IsSound-of P r old p (pick-Chosen P ws all fuel r old h)
