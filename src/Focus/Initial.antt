-- ===== src/Focus/Initial.antt =====
-- The focus that pick_primary_focus_and_override (src/steamcompmgr.cpp) starts from.
use cloud_desktop.Prelude.{
  ℕ, ◌≡◌, Bool, true, false, not, ◌||◌, ◌==◌, if◌then◌else◌, Option, none, some, List, [], ◌∷◌, All,
  arith, find_first, find_first-All, subst,
}
use cloud_desktop.Window.{Win}
use cloud_desktop.Focus.Priority.{is_steam_controlled}
use cloud_desktop.Focus.Pick.{
  Request, find_by_app_id, find_control_window, find_controlled, pick_first, pick_initial,
  controlled_focus,
}

module _ {ℓ} (P : Win → Type ℓ) (ws : List Win) (all : All P ws) where
  -- An optional window satisfies `P` if it is there.
  Holds : Option Win → Type ℓ
  Holds o = (w : Win) → o ≡ some w → P w

  Holds-find : (test : Win → Bool) → Holds (find_first test ws)
  unfolding Holds
  Holds-find test w e = (find_first-All P test ws all e).0

  Holds-none : Holds none
  unfolding Holds
  Holds-none w e = absurd (ground arith)

  Holds-or : (a b : Option Win) → Holds a → Holds b → Holds (elim a [ some w ↦ some w | none ↦ b ])
  Holds-or none b h k = k
  Holds-or (some w) b h k = h

  Holds-if : (b : Bool) (x y : Option Win) → Holds x → Holds y → Holds (if b then x else y)
  Holds-if true x y h k = h
  Holds-if false x y h k = k

  Holds-app_id : (apps : List ℕ) → Holds (find_by_app_id ws apps)
  unfolding find_by_app_id
  Holds-app_id [] = Holds-none
  Holds-app_id (app ∷ apps) =
      Holds-or (find_first (λ w. w.app_id == app) ws) _ (Holds-find _) (Holds-app_id apps)

  Holds-control_window : (r : Request) → Holds (find_control_window r ws)
  unfolding find_control_window
  Holds-control_window r = Holds-if (r.focus_control_window == 0) _ _ Holds-none (Holds-find _)

  Holds-controlled : (r : Request) → Holds (find_controlled r ws)
  unfolding find_controlled
  Holds-controlled r =
      Holds-if (is_steam_controlled r.strategy) _ _
        (Holds-or (find_control_window r ws) _ (Holds-control_window r)
          (Holds-app_id r.focus_control_app_ids))
        (Holds-find _)

  Holds-if_pair :
      (b : Bool) (x y : Option Win × Bool) → Holds x.0 → Holds y.0 → Holds (if b then x else y).0
  Holds-if_pair true x y h k = h
  Holds-if_pair false x y h k = k

  Holds-some : (w : Win) → P w → Holds (some w)
  unfolding Holds
  Holds-some w p v e = let same : w ≡ v = ground arith in subst P same p

  Holds-first : (r : Request) (vs : List Win) → All P vs → Holds (pick_first r vs).0
  unfolding pick_first
  Holds-first r [] a = Holds-none
  Holds-first r (v ∷ vs) a =
      Holds-if_pair (not r.global_focus || not (controlled_focus r)) _ _ (Holds-some v a.0)
        Holds-none

  Holds-initial : (r : Request) → Holds (pick_initial r ws).0
  unfolding pick_initial
  Holds-initial r =
      go (if controlled_focus r then find_controlled r ws else none)
        (Holds-if (controlled_focus r) _ _ (Holds-controlled r) Holds-none)
    where
      go :
          (o : Option Win)
          → Holds o
          → Holds (
              let q : Option Win × Bool = elim o [
                | some w ↦ (some w, true)
                | none ↦ pick_first r ws
              ] in
              q.0)
      go none h = Holds-first r ws all
      go (some w) h = h

  pub found_initial : (r : Request) (f : Win) → (pick_initial r ws).0 ≡ some f → P f
  unfolding Holds
  found_initial r f e = Holds-initial r f e
