-- ===== src/Focus/Order.antt =====
-- is_focus_priority_greater (src/steamcompmgr.cpp) and the criteria that it compares.
use cloud_desktop.Prelude.{
  ℕ, ◌≡◌, refl, sym, ap, ◌∙◌, Bool, true, false, not, ◌&&◌, ◌==◌, ltb, if◌then◌else◌, ◌=ᵇ◌, Option,
  none, some, List, [], ◌∷◌, arith,
}
use cloud_desktop.Window.{Win, XwaylandWin, XdgWin, xwayland, xdg}
use cloud_desktop.Window.Predicates.{
  win_has_game_id, win_is_useless, win_is_override_redirect, win_skip_and_not_fullscreen,
  win_maybe_a_dropdown, win_is_disabled,
}
use cloud_desktop.Focus.Priority.{prefer, avoid, later_if, is_focus_priority_greater}

-- The first place where two keys differ decides.
unfoldable pub lex_greater : List ℕ → List ℕ → Bool
lex_greater (x ∷ xs) (y ∷ ys) = let rest = lex_greater xs ys in if x == y then rest else ltb y x
lex_greater _ _ = false

abbrev pub bit : Bool → ℕ
bit true = 1
bit false = 0

abbrev pub when : Bool → ℕ → ℕ
when true n = n
when false n = 0

-- The criteria of an Xwayland window in order of weight, a greater number having the priority:
-- a game, no override redirect, not useless, no dropdown, not disabled, no skip hints; for dropdowns
-- no dialog and not transient; for games the later mapped and then the later damaged one.
unfoldable pub priority_key : Win → XwaylandWin → List ℕ
priority_key w x =
    bit (win_has_game_id w)
    ∷ bit (not (win_is_override_redirect w))
    ∷ bit (not (win_is_useless w))
    ∷ bit (not (win_maybe_a_dropdown w))
    ∷ bit (not (win_is_disabled w))
    ∷ bit (not (win_skip_and_not_fullscreen w))
    ∷ when (win_maybe_a_dropdown w) (bit (not w.is_dialog))
    ∷ when (win_maybe_a_dropdown w) (bit (x.transient_for == 0))
    ∷ when (win_has_game_id w) x.map_sequence
    ∷ when (win_has_game_id w) x.damage_sequence
    ∷ []

prefer-lex :
    (x y : Bool) (r : Option Bool) (xs ys : List ℕ)
    → (x ≡ y → r ≡ some (lex_greater xs ys))
    → prefer x y r ≡ some (lex_greater (bit x ∷ xs) (bit y ∷ ys))
unfolding lex_greater
prefer-lex true true r xs ys h = h refl
prefer-lex true false r xs ys h = refl
prefer-lex false true r xs ys h = refl
prefer-lex false false r xs ys h = h refl

avoid-lex :
    (x y : Bool) (r : Option Bool) (xs ys : List ℕ)
    → (x ≡ y → r ≡ some (lex_greater xs ys))
    → avoid x y r ≡ some (lex_greater (bit (not x) ∷ xs) (bit (not y) ∷ ys))
unfolding lex_greater
avoid-lex true true r xs ys h = h refl
avoid-lex true false r xs ys h = refl
avoid-lex false true r xs ys h = refl
avoid-lex false false r xs ys h = h refl

-- The criteria that a tie on the first six leaves.
last_criteria :
    (d e g h : Bool) (da db ta tb : Bool) (ma mb sa sb : ℕ)
    → d ≡ e
    → g ≡ h
    → (if (d && e) && not (da =ᵇ db)
        then some (not da)
        else some
            (if (d && e) && not (ta =ᵇ tb) then ta else later_if g ma mb (later_if g sa sb false)))
      ≡ some (
          lex_greater
            (when d (bit (not da)) ∷ when d (bit ta) ∷ when g ma ∷ when g sa ∷ [])
            (when e (bit (not db)) ∷ when e (bit tb) ∷ when h mb ∷ when h sb ∷ []))
unfolding lex_greater
last_criteria d e g h da db ta tb ma mb sa sb p q = ground arith

-- Between Xwayland windows nothing is thrown, and the answer is the comparison of their keys.
pub is_focus_priority_greater-lex :
    (a b : Win) (xa xb : XwaylandWin)
    → a.type ≡ xwayland xa
    → b.type ≡ xwayland xb
    → is_focus_priority_greater a b ≡ some (lex_greater (priority_key a xa) (priority_key b xb))
unfolding is_focus_priority_greater priority_key
is_focus_priority_greater-lex a b xa xb ta tb =
    rw (ta, tb)
      (prefer-lex _ _ _ _ _ λ game. avoid-lex _ _ _ _ _ λ _. avoid-lex _ _ _ _ _ λ _.
        avoid-lex _ _ _ _ _ λ drop.
          avoid-lex _ _ _ _ _
            λ _. avoid-lex _ _ _ _ _ λ _. last_criteria _ _ _ _ _ _ _ _ _ _ _ _ drop game)

xdg_plain :
    (b : Win) (xb : XdgWin)
    → b.type ≡ xdg xb
    → (win_is_override_redirect b ≡ false) × (win_maybe_a_dropdown b ≡ false)
unfolding win_is_override_redirect win_maybe_a_dropdown
xdg_plain b xb tb = (rw tb, rw tb)

-- The criteria of an XDG window in order of weight.
unfoldable pub xdg_key : Win → List ℕ
xdg_key w =
    bit (win_has_game_id w)
    ∷ bit (not (win_is_useless w))
    ∷ bit (not (win_is_disabled w))
    ∷ bit (not (win_skip_and_not_fullscreen w))
    ∷ []

xdg_criteria :
    (g h u v d e k l : Bool)
    → prefer g h (avoid u v (avoid d e (avoid k l (some true))))
      ≡ some (
          not (
            lex_greater
              (bit h ∷ bit (not v) ∷ bit (not e) ∷ bit (not l) ∷ [])
              (bit g ∷ bit (not u) ∷ bit (not d) ∷ bit (not k) ∷ [])))
unfolding lex_greater
xdg_criteria g h u v d e k l = ground arith

lex_greater_irrefl : (xs : List ℕ) → lex_greater xs xs ≡ false
unfolding lex_greater
lex_greater_irrefl [] = refl
lex_greater_irrefl (x ∷ xs) = ground (arith, lex_greater_irrefl xs)

xdg_greater_lem :
    (a b : Win) (xa xb : XdgWin)
    → a.type ≡ xdg xa
    → b.type ≡ xdg xb
    → is_focus_priority_greater a b ≡ some (not (lex_greater (xdg_key b) (xdg_key a)))
unfolding is_focus_priority_greater xdg_key
xdg_greater_lem a b xa xb ta tb =
    let (oa, da) = xdg_plain a xa ta in
    let (ob, db) = xdg_plain b xb tb in rw (oa, ob, da, db, ta) (xdg_criteria _ _ _ _ _ _ _ _)

-- Between any two XDG windows nothing is thrown, and the first outranks the second unless the key of the
-- second is lexicographically greater: on a tie each outranks the other, and every window outranks
-- itself, so that this is no strict order.
pub xdg-greater :
    (a b : Win) (xa xb : XdgWin)
    → a.type ≡ xdg xa
    → b.type ≡ xdg xb
    → (is_focus_priority_greater a b ≡ some (not (lex_greater (xdg_key b) (xdg_key a))))
      × (xdg_key a ≡ xdg_key b
          → (is_focus_priority_greater a b ≡ some true)
            × (is_focus_priority_greater b a ≡ some true))
      × (is_focus_priority_greater a a ≡ some true)
xdg-greater a b xa xb ta tb =
    let tie : (v w : Win)
        → xdg_key v ≡ xdg_key w
        → not (lex_greater (xdg_key w) (xdg_key v)) ≡ true =
      λ v w same. rw (same, lex_greater_irrefl (xdg_key w)) refl in
    (
      xdg_greater_lem a b xa xb ta tb,
      λ same. (
        xdg_greater_lem a b xa xb ta tb ∙ ap some (tie a b same),
        xdg_greater_lem b a xb xa tb ta ∙ ap some (tie b a (sym same)),
      ),
      xdg_greater_lem a a xa xa ta ta ∙ ap some (tie a a refl),
    )

-- The comparison of an Xwayland window of a game, no override redirect and no dropdown, with an XDG
-- window of a game that ties with it on the other common criteria throws std::bad_variant_access.
mixed-throws :
    (a b : Win) (xa : XwaylandWin) (xb : XdgWin)
    → a.type ≡ xwayland xa
    → b.type ≡ xdg xb
    → win_has_game_id a ≡ true
    → win_has_game_id b ≡ true
    → win_is_override_redirect a ≡ false
    → win_maybe_a_dropdown a ≡ false
    → win_is_useless a ≡ win_is_useless b
    → win_is_disabled a ≡ win_is_disabled b
    → win_skip_and_not_fullscreen a ≡ win_skip_and_not_fullscreen b
    → is_focus_priority_greater a b ≡ none
unfolding is_focus_priority_greater
mixed-throws a b xa xb ta tb ga gb oa da u d k = ground (arith, xdg_plain b xb tb)
